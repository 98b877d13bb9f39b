-- ===== src/Billing/Store/Postgres.antt =====
-- src/billing/billing_cycle_repository.ts: the Postgres store (here), and its refinement of the
-- in-memory store (in the children).
pub mod Tables
pub mod Constraints
pub mod Calls
pub mod Refinement
pub mod Run
mod Tests
use iot_billing_backend.Common.{
  ℕ, ◌+◌, String, Bool, true, false, ◌&&◌, Option, none, some, List, [], ◌∷◌, ◌==◌, ltb, str_eq,
  if◌then◌else◌,
}
use iot_billing_backend.Common.Result.{Result, ok, throws}
use iot_billing_backend.Billing.StateMachine.{BillingCycleState, state_value, all_states}
use iot_billing_backend.Billing.Store.{BillingCycleRow, has_key}

pub record CycleQueryRow : Type 0 where
  pub id : String
  pub state : String
  pub lock_version : ℕ

-- The two tables. A row of the log is its cycle and its key, which is its id too.
pub record PgDb : Type 0 where
  pub billing_cycles : List CycleQueryRow
  pub billing_finalization_log : List (String × String)

-- What a call can reject with: `toRow`'s error, and the database's for a reference to a cycle that
-- does not exist and for an INTEGER column out of range.
pub data PgError : Type 0 where
  unknown_state : String → PgError
  foreign_key_violation : PgError
  integer_out_of_range : PgError

-- The greatest INTEGER of Postgres.
abbrev pub integer_max : ℕ
integer_max = 2147483647

-- `isBillingCycleState`, with the state that it narrows the string to.
unfoldable pub as_state : List BillingCycleState → String → Option BillingCycleState
as_state [] value = none
as_state (s ∷ ss) value = if str_eq (state_value s) value then some s else as_state ss value

unfoldable pub to_row : CycleQueryRow → Result PgError BillingCycleRow
to_row row = elim (as_state all_states row.state) [
  | none ↦ throws (unknown_state row.state)
  | some s ↦ ok (record { id = row.id; state = s; lock_version = row.lock_version })
]

-- `SELECT … WHERE id = $1`, its first row.
unfoldable pub select_cycle : String → List CycleQueryRow → Option CycleQueryRow
select_cycle id [] = none
select_cycle id (r ∷ rs) = if str_eq r.id id then some r else select_cycle id rs

unfoldable pub first_row : Option CycleQueryRow → Result PgError (Option BillingCycleRow)
first_row none = ok none
first_row (some r) = elim (to_row r) [ throws e ↦ throws e | ok row ↦ ok (some row) ]

unfoldable pub get_cycle : PgDb → String → Result PgError (Option BillingCycleRow)
get_cycle db id = first_row (select_cycle id db.billing_cycles)

-- The WHERE clause of the UPDATE.
unfoldable pub matches : String → BillingCycleState → ℕ → CycleQueryRow → Bool
matches id from v r = str_eq r.id id && (str_eq r.state (state_value from) && (r.lock_version == v))

-- The rows after the UPDATE, and its row count.
unfoldable pub update_rows :
    String → BillingCycleState → BillingCycleState → ℕ → List CycleQueryRow → List CycleQueryRow × ℕ
update_rows id from to v [] = ([], 0)
update_rows id from to v (r ∷ rs) =
    let (rs', n) = update_rows id from to v rs in
    if matches id from v r
    then ((record r { state = state_value to; lock_version = r.lock_version + 1 }) ∷ rs', n + 1)
    else (r ∷ rs', n)

unfoldable pub apply_transition :
    PgDb → String → BillingCycleState → BillingCycleState → ℕ → Result PgError (PgDb × Bool)
apply_transition db id from to v =
    let (rs, row_count) = update_rows id from to v db.billing_cycles in
    if ltb 0 row_count && ltb integer_max (v + 1)
    then throws integer_out_of_range
    else ok (record db { billing_cycles = rs }, row_count == 1)

-- The keys of the log.
unfoldable pub log_keys : List (String × String) → List String
log_keys [] = []
log_keys ((cycle_id, key) ∷ rows) = key ∷ log_keys rows

unfoldable pub has_id : String → List CycleQueryRow → Bool
has_id id rs = elim (select_cycle id rs) [ none ↦ false | some r ↦ true ]

-- A duplicate key is ignored before the reference to the cycle is checked.
unfoldable pub record_finalization : PgDb → String → String → Result PgError (PgDb × Bool)
record_finalization db cycle_id key =
    if has_key key (log_keys db.billing_finalization_log)
    then ok (db, false)
    else if has_id cycle_id db.billing_cycles
    then ok (
      record db { billing_finalization_log = (cycle_id, key) ∷ db.billing_finalization_log },
      true,
    )
    else throws foreign_key_violation

-- `withCycleLock`: the callback's changes are committed when it returns and rolled back when it or
-- the locked read throws. The lock keeps other writers away between the read and the end.
unfoldable pub with_cycle_lock :
    {T : Type 0}
    → PgDb
    → String
    → (PgDb → Option BillingCycleRow → Result PgError (PgDb × T))
    → PgDb × Result PgError T
with_cycle_lock db cycle_id fn = elim (get_cycle db cycle_id) [
  | throws e ↦ (db, throws e)
  | ok locked ↦ elim (fn db locked) [
    | throws e ↦ (db, throws e)
    | ok (db', result) ↦ (db', ok result)
  ]
]
