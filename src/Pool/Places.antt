-- ===== src/Pool/Places.antt =====
-- Where a request is, by its id: queued, on its way, or settled.
pub mod Run
use mathlib.Core.Path.{subst}
use iot_billing_backend.Common.{
  ℕ, suc, ◌+◌, ◌≡◌, String, Bool, true, false, Option, none, some, List, [], ◌∷◌, ◌++◌, map, ltb,
  leb, ◌==◌, ==_iff, if◌then◌else◌, length, length-append, str_eq, arith, refl, Bool-cases,
  Option-cases, inl, inr,
}
use iot_billing_backend.Pool.{
  Waiting, Verdict, no_pool, Stage, connecting, connect_failed, setup_failed, setting_up, InFlight,
  Proxy, new_proxy,
}
use iot_billing_backend.Pool.Picking.{
  find_waiting, pick_among, pick_next_request, can_grant, priority_tenants,
}
use iot_billing_backend.Pool.Events.{
  settle, expired, still_waiting, reject_timed_out, remove_waiting, take_request, dispatch,
  is_empty, next_round, process_with, process_queue, enqueue, connect, has_schema, leave,
  on_connected, grant, on_set_up, resume_at, resume_with, resume, find_client, give_back,
  release_with, release, Event, connects, resumes, releases, wakes, handle, handle_all,
}

-- How often an id stands in the queue, on its way, and among the settled.
unfoldable pub queued : ℕ → List Waiting → ℕ
queued k [] = 0
queued k (r ∷ rs) = (if r.id == k then 1 else 0) + queued k rs

unfoldable pub on_its_way : ℕ → Option InFlight → ℕ
on_its_way k none = 0
on_its_way k (some f) = if f.request.id == k then 1 else 0

unfoldable pub settled_times : ℕ → List (ℕ × Verdict) → ℕ
settled_times k [] = 0
settled_times k ((j, v) ∷ vs) = (if j == k then 1 else 0) + settled_times k vs

-- The request `k` has `n` places.
abbrev pub Placed : ℕ → ℕ → Proxy → Type 0
Placed k n p = queued k p.wait_queue + on_its_way k p.in_flight + settled_times k p.settled ≡ n

-- How often the request is made.
abbrev pub connected : ℕ → List Event → ℕ
connected k [] = 0
connected k (connects id t now ∷ es) = (if id == k then 1 else 0) + connected k es
connected k (e ∷ es) = connected k es

pub queued-append : (k : ℕ) (q q' : List Waiting) → queued k (q ++ q') ≡ queued k q + queued k q'
unfolding queued
queued-append k [] q' = omega arith
queued-append k (r ∷ rs) q' = omega (arith, queued-append k rs q')

settled_times-append :
    (k : ℕ) (vs vs' : List (ℕ × Verdict))
    → settled_times k (vs ++ vs') ≡ settled_times k vs + settled_times k vs'
unfolding settled_times
settled_times-append k [] vs' = omega arith
settled_times-append k ((j, v) ∷ vs) vs' = omega (arith, settled_times-append k vs vs')

queued-expired :
    (k now : ℕ) (q : List Waiting)
    → queued k (still_waiting now q) + settled_times k (expired now q) ≡ queued k q
unfolding still_waiting expired queued settled_times
queued-expired k now [] = refl
queued-expired k now (r ∷ rs) = ground (arith, queued-expired k now rs)

settled_times-map_no_pool :
    (k : ℕ) (q : List Waiting) → settled_times k (map (λ r. (r.id, no_pool)) q) ≡ queued k q
unfolding settled_times queued
settled_times-map_no_pool k [] = refl
settled_times-map_no_pool k (r ∷ rs) = omega (arith, settled_times-map_no_pool k rs)

-- A request that is found is the one that is taken out.
queued-remove_waiting :
    (k : ℕ) (t : String) (q : List Waiting) (r : Waiting)
    → find_waiting t q ≡ some r
    → queued k (remove_waiting r.id q) + (if r.id == k then 1 else 0) ≡ queued k q
unfolding find_waiting remove_waiting queued
queued-remove_waiting k t [] r e = cc
queued-remove_waiting k t (x ∷ xs) r e =
    ground (arith, e, queued-remove_waiting k t xs r, ==_iff x.id r.id)

queued-pick_among :
    (k : ℕ) (ts : List String) (p : Proxy) (r : Waiting)
    → pick_among ts p ≡ some r
    → queued k (remove_waiting r.id p.wait_queue) + (if r.id == k then 1 else 0)
      ≡ queued k p.wait_queue
unfolding pick_among
queued-pick_among k [] p r e = cc
queued-pick_among k (t ∷ ts) p r e = elim (Option-cases (find_waiting t p.wait_queue)) [
  | inl n ↦ queued-pick_among k ts p r (ground (arith, e, n))
  | inr (x, x_is) ↦ elim (Bool-cases (can_grant t p)) [
    | inl may ↦ queued-remove_waiting k t p.wait_queue r (ground (arith, e, x_is, may))
    | inr may_not ↦ queued-pick_among k ts p r (ground (arith, e, x_is, may_not))
  ]
]

module _ (k n : ℕ) where
  pick-Placed :
      (p : Proxy)
      → p.in_flight ≡ none
      → Placed k n p
      → Placed k n (dispatch (pick_next_request p) p)
  unfolding pick_next_request on_its_way
  pick-Placed p idle h = elim (Option-cases (pick_among (priority_tenants p) p)) [
    | inl e ↦ rw (e) h
    | inr (r, e) ↦ rw (e) (ground (arith, idle, h, queued-pick_among k (priority_tenants p) p r e))
  ]

  reject_timed_out-Placed :
      (now : ℕ) (p : Proxy) → Placed k n p → Placed k n (reject_timed_out now p)
  unfolding reject_timed_out
  reject_timed_out-Placed now p h = omega (
    arith,
    h,
    queued-expired k now p.wait_queue,
    settled_times-append k (expired now p.wait_queue) p.settled,
  )

  reject_timed_out_idle :
      (now : ℕ) (p : Proxy) → p.in_flight ≡ none → (reject_timed_out now p).in_flight ≡ none
  unfolding reject_timed_out
  reject_timed_out_idle now p idle = idle

  next_round-Placed :
      (now : ℕ) (p : Proxy) → p.in_flight ≡ none → Placed k n p → Placed k n (next_round now p)
  unfolding next_round
  next_round-Placed now p idle h = elim (Bool-cases (is_empty p.wait_queue)) [
    | inl e ↦ rw (e) h
    | inr e ↦ rw (e) (
        pick-Placed (reject_timed_out now p) (reject_timed_out_idle now p idle)
          (reject_timed_out-Placed now p h))
  ]

  process_with-Placed :
      (o : Option InFlight) (has_pool : Bool) (now : ℕ) (p : Proxy)
      → p.in_flight ≡ o
      → Placed k n p
      → Placed k n (process_with o has_pool now p)
  unfolding process_with queued
  process_with-Placed (some f) has_pool now p e h = h
  process_with-Placed none true now p e h = next_round-Placed now p e h
  process_with-Placed none false now p e h = omega (
    arith,
    h,
    settled_times-map_no_pool k p.wait_queue,
    settled_times-append k (map (λ r. (r.id, no_pool)) p.wait_queue) p.settled,
  )

  pub process_queue-Placed : (now : ℕ) (p : Proxy) → Placed k n p → Placed k n (process_queue now p)
  unfolding process_queue
  process_queue-Placed now p h = process_with-Placed p.in_flight p.has_pool now p refl h

  -- When the request on its way is settled, there is one more verdict.
  settled-Placed :
      (f : InFlight) (p : Proxy)
      → p.in_flight ≡ some f
      → Placed k n p
      → queued k p.wait_queue
          + 0
          + ((if f.request.id == k then 1 else 0) + settled_times k p.settled)
        ≡ n
  unfolding on_its_way
  settled-Placed f p flies h = ground (arith, flies, h)

  on_connected-Placed :
      (came : Bool) (now : ℕ) (f : InFlight) (p : Proxy)
      → p.in_flight ≡ some f
      → Placed k n p
      → Placed k n (on_connected came now f p)
  unfolding on_connected on_its_way settled_times
  on_connected-Placed false now f p flies h =
      next_round-Placed now (leave (settle connect_failed f.request p)) refl
        (settled-Placed f p flies h)
  on_connected-Placed true now f p flies h = elim (Bool-cases (has_schema f.request.tenant_id)) [
    | inl named ↦ rw (named) (ground (arith, flies, h))
    | inr unnamed ↦ rw (unnamed) (
        next_round-Placed now
          (leave (settle setup_failed f.request (record p { checked_out = p.checked_out + 1 })))
          refl (settled-Placed f p flies h))
  ]

  on_set_up-Placed :
      (done : Bool) (now : ℕ) (f : InFlight) (p : Proxy)
      → p.in_flight ≡ some f
      → Placed k n p
      → Placed k n (on_set_up done now f p)
  unfolding on_set_up on_its_way settled_times
  on_set_up-Placed true now f p flies h =
      next_round-Placed now (leave (grant f.request p)) refl (settled-Placed f p flies h)
  on_set_up-Placed false now f p flies h =
      next_round-Placed now (leave (settle setup_failed f.request p)) refl
        (settled-Placed f p flies h)

  resume_at-Placed :
      (s : Stage) (f : InFlight) (came : Bool) (now : ℕ) (p : Proxy)
      → p.in_flight ≡ some f
      → Placed k n p
      → Placed k n (resume_at s f came now p)
  unfolding resume_at
  resume_at-Placed connecting f came now p e h = on_connected-Placed came now f p e h
  resume_at-Placed setting_up f came now p e h = on_set_up-Placed came now f p e h

  pub resume_with-Placed :
      (o : Option InFlight) (came : Bool) (now : ℕ) (p : Proxy)
      → p.in_flight ≡ o
      → Placed k n p
      → Placed k n (resume_with o came now p)
  unfolding resume_with
  resume_with-Placed none came now p e h = h
  resume_with-Placed (some f) came now p e h = resume_at-Placed f.stage f came now p e h

  pub release_with-Placed :
      (o : Option String) (id now : ℕ) (p : Proxy)
      → Placed k n p
      → Placed k n (release_with o id now p)
  unfolding release_with
  release_with-Placed none id now p h = h
  release_with-Placed (some t) id now p h = process_queue-Placed now (give_back id t p) h
