-- ===== src/Pool.antt =====
-- src/database/pool_manager.ts: TenantAwarePoolProxy, which shares one pg pool fairly among
-- tenants, and `tenantSchemaName`. `processQueue` runs alone between its two `await`s, so the proxy
-- is a state with events: calls, what the awaits give, releases and the timer.
pub mod RefreshWindow
pub mod Schema
pub mod Picking
pub mod Events
pub mod Counts
pub mod Places
mod Tests
use iot_billing_backend.Common.{
  ℕ, ◌+◌, ◌-◌, String, Bool, true, false, Option, none, some, List, [], ◌∷◌, ◌++◌,
}
use iot_billing_backend.Common.Dict.{Dict, get}

abbrev pub tenant_min_connections : ℕ
tenant_min_connections = 2

abbrev pub tenant_max_connections : ℕ
tenant_max_connections = 10

abbrev pub connection_wait_timeout_ms : ℕ
connection_wait_timeout_ms = 500

-- A queued request; the number tells requests apart.
pub record Waiting : Type 0 where
  pub id : ℕ
  pub tenant_id : String
  pub enqueued_at : ℕ

-- How the promise of a request is settled.
pub data Verdict : Type 0 where
  granted timed_out connect_failed setup_failed no_pool : Verdict

-- Where `processQueue` waits: for `pool.connect()`, or for the query that sets the search path.
pub data Stage : Type 0 where
  connecting setting_up : Stage

pub record InFlight : Type 0 where
  pub request : Waiting
  pub stage : Stage

-- The fields of the proxy, with `manager.getGlobalMax()` and whether the manager has the pool.
-- `in_flight` is what `processing` stands for while nothing runs. The last three fields are not the
-- proxy's: the granted clients that are not released, how many clients pg has handed out and not
-- got back, and how requests were settled, newest first.
pub record Proxy : Type 0 where
  pub global_max : ℕ
  pub has_pool : Bool
  pub tenant_active : Dict ℕ
  pub wait_queue : List Waiting
  pub fair_order : List String
  pub global_active : ℕ
  pub in_flight : Option InFlight
  pub outstanding : List (ℕ × String)
  pub checked_out : ℕ
  pub settled : List (ℕ × Verdict)

abbrev pub new_proxy : ℕ → Bool → Proxy
new_proxy global_max has_pool = record {
  global_max = global_max;
  has_pool = has_pool;
  tenant_active = [];
  wait_queue = [];
  fair_order = [];
  global_active = 0;
  in_flight = none;
  outstanding = [];
  checked_out = 0;
  settled = [];
}

-- `map.get(tenantId) ?? 0`
unfoldable pub count_in : String → Dict ℕ → ℕ
count_in t d = elim (get t d) [ none ↦ 0 | some n ↦ n ]

unfoldable pub get_tenant_active_count : String → Proxy → ℕ
unfolding count_in
get_tenant_active_count t p = count_in t p.tenant_active
