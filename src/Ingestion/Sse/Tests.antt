-- ===== src/Ingestion/Sse/Tests.antt =====
-- Runs of the theorems about src/core/ingestion/sse_manager.ts on small inputs.
use iot_billing_backend.Common.{ℕ, ◌≡◌, refl, Bool, false, List, [], ◌∷◌, ◌++◌, length, ltb}
use iot_billing_backend.Ingestion.Sse.{
  Event, enqueued, drained, stream_failed, heartbeat_due, new_connection, handle_all, enqueue,
  handle, flush_queue, make_room, flush_loop,
}
use iot_billing_backend.Ingestion.Sse.Invariant.{IsSound, accounted, asked, handle_all-IsSound}
use iot_billing_backend.Ingestion.Sse.Order.{Sub, handle_all-InOrder, drained_writes_again}
use iot_billing_backend.Ingestion.Sse.Manager.{
  Call, adding, sending, broadcasting, streaming, removing, new_manager, call_all,
}
use iot_billing_backend.Ingestion.Sse.Manager.Clients.{Connected, call_all-Connected}

-- A stream that takes one write and then refuses the next ones.
abbrev narrow : ℕ → Bool
narrow n = ltb n 1

abbrev events : List Event
events =
    enqueued "a"
    ∷ enqueued "b"
    ∷ enqueued "c"
    ∷ drained
    ∷ heartbeat_due
    ∷ stream_failed
    ∷ enqueued "d"
    ∷ []

handle_all-IsSound_example :
    IsSound (handle_all narrow new_connection events)
    × (accounted (handle_all narrow new_connection events) ≡ length (asked events))
handle_all-IsSound_example = handle_all-IsSound narrow events

handle_all-InOrder_example :
    Sub
      ((handle_all narrow new_connection events).sent
        ++ (handle_all narrow new_connection events).queue)
      (asked events)
handle_all-InOrder_example = handle_all-InOrder narrow events

written_twice :
    (handle_all narrow new_connection (enqueued "a" ∷ enqueued "b" ∷ drained ∷ [])).written
    ≡ "b" ∷ "b" ∷ "a" ∷ []
unfolding handle_all handle flush_queue enqueue make_room flush_loop
written_twice = refl

drained_writes_again_example :
    (handle_all (λ n. false) new_connection (enqueued "a" ∷ drained ∷ [])).written ≡ "a" ∷ "a" ∷ []
drained_writes_again_example =
    drained_writes_again (λ n. false) new_connection "a" refl refl refl refl

abbrev streams : ℕ → ℕ → Bool
streams k = narrow

abbrev calls : List Call
calls =
    adding
    ∷ adding
    ∷ adding
    ∷ broadcasting "x"
    ∷ streaming 2 stream_failed
    ∷ removing 1
    ∷ sending 3 "y"
    ∷ []

call_all-Connected_example :
    Connected 0
      (call_all streams new_manager calls).counter
      (call_all streams new_manager calls).connections
call_all-Connected_example = call_all-Connected streams calls
