-- ===== src/Pool/Picking.antt =====
-- TenantAwarePoolProxy: who gets the next connection.
use iot_billing_backend.Common.{
  ℕ, ◌+◌, ◌-◌, String, Bool, true, false, ◌&&◌, ◌||◌, Option, none, some, List, [], ◌∷◌, ltb, leb,
  if◌then◌else◌, str_eq,
}
use iot_billing_backend.Common.Dict.{Dict}
use iot_billing_backend.Pool.{
  Waiting, Proxy, get_tenant_active_count, tenant_min_connections, tenant_max_connections,
}

-- `Array.prototype.includes` on tenants.
abbrev pub includes : List String → String → Bool
includes [] t = false
includes (x ∷ xs) t = str_eq x t || includes xs t

-- `waitQueue.some((request) => request.tenantId === tenantId)`
abbrev pub has_pending : List Waiting → String → Bool
has_pending [] t = false
has_pending (r ∷ rs) t = str_eq r.tenant_id t || has_pending rs t

-- compactFairOrder
unfoldable pub compact_fair_order : List Waiting → List String → List String
compact_fair_order queue [] = []
compact_fair_order queue (t ∷ ts) =
    let rest = compact_fair_order queue ts in if has_pending queue t then t ∷ rest else rest

-- What is kept back for the other tenants that are active below the minimum.
unfoldable pub reserved_active : String → Dict ℕ → ℕ
reserved_active excluded [] = 0
reserved_active excluded ((t, active) ∷ d) =
    let rest = reserved_active excluded d in
    if str_eq t excluded
    then rest
    else if ltb 0 active && ltb active tenant_min_connections
    then (tenant_min_connections - active) + rest
    else rest

-- What is kept back for the first waiting tenant that is below the minimum.
unfoldable pub reserved_waiting : String → List Waiting → Proxy → ℕ
reserved_waiting excluded [] p = 0
reserved_waiting excluded (r ∷ rs) p =
    let rest = reserved_waiting excluded rs p in
    let active = get_tenant_active_count r.tenant_id p in
    if str_eq r.tenant_id excluded
    then rest
    else if ltb active tenant_min_connections
    then tenant_min_connections - active
    else rest

unfoldable pub reserved_for_guarantees : String → Proxy → ℕ
unfolding reserved_active reserved_waiting
reserved_for_guarantees excluded p =
    reserved_active excluded p.tenant_active + reserved_waiting excluded p.wait_queue p

unfoldable pub can_grant : String → Proxy → Bool
unfolding reserved_for_guarantees
can_grant t p =
    let active = get_tenant_active_count t p in
    if leb tenant_max_connections active
    then false
    else if leb p.global_max p.global_active
    then false
    else if ltb active tenant_min_connections
    then true
    else ltb (p.global_active + reserved_for_guarantees t p) p.global_max

-- `fairOrder.filter(...)`, the tenants below the minimum.
unfoldable pub under_minimum : List String → Proxy → List String
under_minimum [] p = []
under_minimum (t ∷ ts) p =
    let rest = under_minimum ts p in
    if ltb (get_tenant_active_count t p) tenant_min_connections then t ∷ rest else rest

unfoldable pub priority_tenants : Proxy → List String
unfolding under_minimum
priority_tenants p = elim (under_minimum p.fair_order p) [ [] ↦ p.fair_order | x ∷ xs ↦ x ∷ xs ]

-- `waitQueue.find(...)`
unfoldable pub find_waiting : String → List Waiting → Option Waiting
find_waiting t [] = none
find_waiting t (r ∷ rs) =
    let rest = find_waiting t rs in if str_eq r.tenant_id t then some r else rest

unfoldable pub pick_among : List String → Proxy → Option Waiting
unfolding find_waiting
pick_among [] p = none
pick_among (t ∷ ts) p =
    let rest = pick_among ts p in
    elim (find_waiting t p.wait_queue) [
      | none ↦ rest
      | some r ↦ if can_grant t p then some r else rest
    ]

unfoldable pub pick_next_request : Proxy → Option Waiting
unfolding pick_among priority_tenants
pick_next_request p = pick_among (priority_tenants p) p
