-- ===== src/Ingestion/ValidatorTests.antt =====
-- Runs of the theorems on the validator's nonces and reorder buffer.
use iot_billing_backend.Common.{ℕ, ◌*◌, ◌≡◌, List, [], ◌∷◌, length, refl}
use iot_billing_backend.Ingestion.Replay.{new_cache, try_consume}
use iot_billing_backend.Ingestion.Replay.Window.{
  Event, consumes, prunes, accepted, try_consume_once, all_before,
}
use iot_billing_backend.Ingestion.Reorder.{new_buffer, submit_all}
use iot_billing_backend.Ingestion.Reorder.Delivery.{InOrder, submit_all-InOrder}
use iot_billing_backend.Ingestion.Reorder.Window.{Kept, submit_all-Kept}

abbrev calls : List Event
calls = consumes "b" 12 ∷ prunes 14 ∷ consumes "a" 14 ∷ []

try_consume_once_example : accepted "a" calls (try_consume "a" 10 (new_cache 5)).1 ≡ 0
unfolding try_consume all_before
try_consume_once_example = try_consume_once "a" 10 calls (new_cache 5) refl refl

abbrev numbers : List ℕ
numbers = 2 ∷ 4 ∷ 3 ∷ 1 ∷ 1 ∷ 4 ∷ []

abbrev frame_of : ℕ → ℕ
frame_of s = 10 * s

submit_all-InOrder_example :
    let (out, b) = submit_all frame_of numbers (new_buffer 2) in
    InOrder frame_of 0 out × (b.delivered ≡ length out)
submit_all-InOrder_example = submit_all-InOrder frame_of numbers 2

submit_all-Kept_example : Kept (submit_all frame_of numbers (new_buffer 2)).1
submit_all-Kept_example = submit_all-Kept frame_of numbers 2
