-- ===== src/Pool/Counts.antt =====
-- The counters of TenantAwarePoolProxy over any run of events.
pub mod Rounds
pub mod Run
use iot_billing_backend.Common.{
  ℕ, ◌+◌, ◌-◌, ◌≤◌, ◌<◌, ◌≡◌, String, Bool, true, false, Option, none, some, List, [], ◌∷◌, ◌++◌,
  map, ltb, leb, ◌==◌, if◌then◌else◌, length, str_eq, eq_iff, arith, refl, Bool-cases, Option-cases,
  inl, inr, ◌⊎◌,
}
use iot_billing_backend.Common.Dict.{Dict, get, put, delete, get-put, get-delete}
use iot_billing_backend.Pool.{
  Waiting, Verdict, granted, timed_out, connect_failed, setup_failed, no_pool, Stage, connecting,
  setting_up, InFlight, Proxy, new_proxy, count_in, get_tenant_active_count,
}
use iot_billing_backend.Pool.Picking.{
  find_waiting, pick_among, pick_next_request, can_grant, priority_tenants,
}
use iot_billing_backend.Pool.Events.{
  settle, expired, reject_timed_out, take_request, dispatch, next_round, process_with,
  process_queue, resume_at, resume_with, give_back, release_with, enqueue, connect, has_schema,
  leave, on_connected, grant, on_set_up, resume, find_client, remove_client, drop_active, is_empty,
  release, Event, connects, resumes, releases, wakes, handle, handle_all,
}

-- How many of the clients that are out belong to a tenant.
abbrev pub clients_of : String → List (ℕ × String) → ℕ
clients_of t [] = 0
clients_of t ((id, u) ∷ cs) = (if str_eq u t then 1 else 0) + clients_of t cs

-- One while a request is on its way, for any tenant, for one, and with a client in hand.
abbrev pub flying : Option InFlight → ℕ
flying none = 0
flying (some f) = 1

abbrev pub flying_for : String → Option InFlight → ℕ
flying_for t none = 0
flying_for t (some f) = if str_eq f.request.tenant_id t then 1 else 0

abbrev pub holding : Option InFlight → ℕ
holding none = 0
holding (some f) = elim f.stage [ connecting ↦ 0 | setting_up ↦ 1 ]

-- Requests that were rejected with a client in hand.
abbrev pub is_setup_failure : Verdict → ℕ
is_setup_failure setup_failed = 1
is_setup_failure _ = 0

abbrev pub failures : List (ℕ × Verdict) → ℕ
failures [] = 0
failures ((id, v) ∷ vs) = is_setup_failure v + failures vs

-- The counts of each tenant are those of its clients, and with the request on its way at most ten.
-- The global count is that of all clients, and with the request on its way at most the maximum.
-- The clients that pg misses are these, the one in hand, and one for each failed set-up.
abbrev pub Counted : Proxy → Type 0
Counted p =
    ((t : String) → count_in t p.tenant_active ≡ clients_of t p.outstanding)
    × ((t : String) → clients_of t p.outstanding + flying_for t p.in_flight ≤ 10)
    × (p.global_active ≡ length p.outstanding)
    × (length p.outstanding + flying p.in_flight ≤ p.global_max)
    × (p.checked_out ≡ length p.outstanding + holding p.in_flight + failures p.settled)

pub failures-append : (us vs : List (ℕ × Verdict)) → failures (us ++ vs) ≡ failures us + failures vs
failures-append [] vs = omega arith
failures-append ((id, v) ∷ us) vs = omega (arith, failures-append us vs)

pub failures-expired : (now : ℕ) (q : List Waiting) → failures (expired now q) ≡ 0
unfolding expired
failures-expired now [] = refl
failures-expired now (r ∷ rs) = ground (arith, failures-expired now rs)

pub failures-no_pool : (q : List Waiting) → failures (map (λ r. (r.id, no_pool)) q) ≡ 0
failures-no_pool [] = refl
failures-no_pool (r ∷ rs) = omega (arith, failures-no_pool rs)

find_waiting_tenant :
    (t : String) (q : List Waiting) (r : Waiting) → find_waiting t q ≡ some r → r.tenant_id ≡ t
unfolding find_waiting
find_waiting_tenant t [] r e = cc
find_waiting_tenant t (x ∷ xs) r e =
    ground (arith, e, eq_iff x.tenant_id t, find_waiting_tenant t xs r)

-- Who is picked may have a connection.
pub pick_among-can_grant :
    (ts : List String) (p : Proxy) (r : Waiting)
    → pick_among ts p ≡ some r
    → can_grant r.tenant_id p ≡ true
unfolding pick_among
pick_among-can_grant [] p r e = cc
pick_among-can_grant (t ∷ ts) p r e = elim (Option-cases (find_waiting t p.wait_queue)) [
  | inl n ↦ pick_among-can_grant ts p r (ground (arith, e, n))
  | inr (x, x_is) ↦ elim (Bool-cases (can_grant t p)) [
    | inl may ↦
        let same : r.tenant_id ≡ t =
          ground (arith, e, x_is, may, find_waiting_tenant t p.wait_queue x x_is) in
        rw (same) may
    | inr may_not ↦ pick_among-can_grant ts p r (ground (arith, e, x_is, may_not))
  ]
]

pub can_grant_room :
    (t : String) (p : Proxy)
    → can_grant t p ≡ true
    → (count_in t p.tenant_active < 10) × (p.global_active < p.global_max)
unfolding can_grant get_tenant_active_count
can_grant_room t p h = (ground (arith, h), ground (arith, h))
