-- ===== src/Pool/Counts/Rounds.antt =====
-- `Counted` through the rounds of `processQueue`.
use iot_billing_backend.Common.{
  ℕ, ◌≡◌, Bool, true, false, Option, none, some, [], ◌++◌, map, eq_iff, arith, refl, Bool-cases,
  Option-cases, inl, inr,
}
use iot_billing_backend.Pool.{Waiting, no_pool, InFlight, Proxy}
use iot_billing_backend.Pool.Picking.{pick_among, pick_next_request, can_grant, priority_tenants}
use iot_billing_backend.Pool.Events.{
  expired, reject_timed_out, take_request, dispatch, next_round, process_with, process_queue,
  is_empty,
}
use iot_billing_backend.Pool.Counts.{
  Counted, failures-append, failures-expired, failures-no_pool, pick_among-can_grant,
  can_grant_room,
}

take_request-Counted :
    (r : Waiting) (p : Proxy)
    → p.in_flight ≡ none
    → Counted p
    → can_grant r.tenant_id p ≡ true
    → Counted (take_request r p)
take_request-Counted r p idle (each, ten, total, room, out) may =
    let (small, space) = can_grant_room r.tenant_id p may in
    (
      each,
      (λ t. ground (arith, eq_iff r.tenant_id t, each r.tenant_id, ten t, idle, small)),
      total,
      ground (arith, idle, total, room, space),
      ground (arith, idle, out),
    )

reject_timed_out-Counted : (now : ℕ) (p : Proxy) → Counted p → Counted (reject_timed_out now p)
unfolding reject_timed_out
reject_timed_out-Counted now p (each, ten, total, room, out) = (
  each,
  ten,
  total,
  room,
  omega (
    arith,
    out,
    failures-append (expired now p.wait_queue) p.settled,
    failures-expired now p.wait_queue,
  ),
)

reject_timed_out_idle :
    (now : ℕ) (p : Proxy) → p.in_flight ≡ none → (reject_timed_out now p).in_flight ≡ none
unfolding reject_timed_out
reject_timed_out_idle now p idle = idle

pick-Counted :
    (p : Proxy) → p.in_flight ≡ none → Counted p → Counted (dispatch (pick_next_request p) p)
unfolding pick_next_request
pick-Counted p idle h = elim (Option-cases (pick_among (priority_tenants p) p)) [
  | inl n ↦ rw (n) h
  | inr (r, e) ↦
      rw (e) (take_request-Counted r p idle h (pick_among-can_grant (priority_tenants p) p r e))
]

pub next_round-Counted :
    (now : ℕ) (p : Proxy) → p.in_flight ≡ none → Counted p → Counted (next_round now p)
unfolding next_round
next_round-Counted now p idle h = elim (Bool-cases (is_empty p.wait_queue)) [
  | inl e ↦ rw (e) h
  | inr e ↦ rw (e) (
      pick-Counted (reject_timed_out now p) (reject_timed_out_idle now p idle)
        (reject_timed_out-Counted now p h))
]

-- Rejecting everything touches no counter.
no_pool-Counted :
    (p : Proxy)
    → Counted p
    → Counted (record p {
      wait_queue = [];
      fair_order = [];
      settled = map (λ r. (r.id, no_pool)) p.wait_queue ++ p.settled;
    })
no_pool-Counted p (each, ten, total, room, out) = (
  each,
  ten,
  total,
  room,
  omega (
    arith,
    out,
    failures-append (map (λ r. (r.id, no_pool)) p.wait_queue) p.settled,
    failures-no_pool p.wait_queue,
  ),
)

process_with-Counted :
    (o : Option InFlight) (has_pool : Bool) (now : ℕ) (p : Proxy)
    → p.in_flight ≡ o
    → Counted p
    → Counted (process_with o has_pool now p)
unfolding process_with
process_with-Counted (some f) has_pool now p e h = h
process_with-Counted none true now p e h = next_round-Counted now p e h
process_with-Counted none false now p e h = no_pool-Counted p h

pub process_queue-Counted : (now : ℕ) (p : Proxy) → Counted p → Counted (process_queue now p)
unfolding process_queue
process_queue-Counted now p h = process_with-Counted p.in_flight p.has_pool now p refl h
