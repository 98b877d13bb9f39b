-- ===== src/Pool/Places/Run.antt =====
-- The places of requests over any run of events.
use mathlib.Core.Path.{subst}
use iot_billing_backend.Common.{ℕ, ◌+◌, ◌≡◌, String, Bool, List, [], ◌∷◌, arith, refl}
use iot_billing_backend.Pool.{Proxy, new_proxy}
use iot_billing_backend.Pool.Events.{
  process_queue, enqueue, connect, resume, find_client, release, Event, connects, resumes, releases,
  wakes, handle, handle_all,
}
use iot_billing_backend.Pool.Places.{
  Placed, connected, queued, on_its_way, settled_times, queued-append, process_queue-Placed,
  resume_with-Placed, release_with-Placed,
}

enqueue-Placed :
    (k id : ℕ) (t : String) (now n : ℕ) (p : Proxy)
    → Placed k n p
    → Placed k (connected k (connects id t now ∷ []) + n) (enqueue id t now p)
unfolding queued
enqueue-Placed k id t now n p h = omega (
  arith,
  h,
  queued-append k p.wait_queue (record { id = id; tenant_id = t; enqueued_at = now } ∷ []),
)

handle-Placed :
    (k : ℕ) (e : Event) (n : ℕ) (p : Proxy)
    → Placed k n p
    → Placed k (connected k (e ∷ []) + n) (handle e p)
unfolding handle connect resume release
handle-Placed k (connects id t now) n p h =
    process_queue-Placed k (connected k (connects id t now ∷ []) + n) now (enqueue id t now p)
      (enqueue-Placed k id t now n p h)
handle-Placed k (resumes came now) n p h =
    subst (λ m. Placed k m (resume came now p)) (omega arith)
      (resume_with-Placed k n p.in_flight came now p refl h)
handle-Placed k (releases id now) n p h =
    subst (λ m. Placed k m (release id now p)) (omega arith)
      (release_with-Placed k n (find_client id p.outstanding) id now p h)
handle-Placed k (wakes now) n p h =
    subst (λ m. Placed k m (process_queue now p)) (omega arith) (process_queue-Placed k n now p h)

connected_cons :
    (k : ℕ) (e : Event) (es : List Event) (n : ℕ)
    → connected k es + (connected k (e ∷ []) + n) ≡ connected k (e ∷ es) + n
connected_cons k (connects id t now) es n = omega arith
connected_cons k (resumes came now) es n = omega arith
connected_cons k (releases id now) es n = omega arith
connected_cons k (wakes now) es n = omega arith

handle_all-Placed_from :
    (k : ℕ) (es : List Event) (n : ℕ) (p : Proxy)
    → Placed k n p
    → Placed k (connected k es + n) (handle_all es p)
unfolding handle_all
handle_all-Placed_from k [] n p h = subst (λ m. Placed k m p) (omega arith) h
handle_all-Placed_from k (e ∷ es) n p h =
    subst (λ m. Placed k m (handle_all es (handle e p))) (connected_cons k e es n)
      (handle_all-Placed_from k es (connected k (e ∷ []) + n) (handle e p)
        (handle-Placed k e n p h))

-- No request is lost and none is answered twice: after any run of connects, settled `await`s,
-- releases and timers, each id stands in the queue, on its way and among the settled as often, in
-- all, as a request was made under it; a request with an id of its own has exactly one place.
pub handle_all-Placed :
    (k global_max : ℕ) (has_pool : Bool) (es : List Event)
    → Placed k (connected k es) (handle_all es (new_proxy global_max has_pool))
unfolding queued on_its_way settled_times
handle_all-Placed k global_max has_pool es =
    subst (λ m. Placed k m (handle_all es (new_proxy global_max has_pool))) (omega arith)
      (handle_all-Placed_from k es 0 (new_proxy global_max has_pool) refl)
