-- ===== src/Billing/Store/Postgres/Calls.antt =====
-- src/billing/billing_cycle_repository.ts: the operations of the store interface as calls, and their answers.
use iot_billing_backend.Common.{ℕ, String, Bool, Option}
use iot_billing_backend.Common.Result.{Result, ok, throws}
use iot_billing_backend.Billing.StateMachine.{BillingCycleState}
use iot_billing_backend.Billing.Store
use iot_billing_backend.Billing.Store.{BillingCycleRow, Cycle, Store}
use iot_billing_backend.Billing.Store.Postgres.{
  PgDb, PgError, get_cycle, apply_transition, record_finalization,
}

-- The operations of the interface `BillingCycleStore`, and their answers.
pub data StoreCall : Type 0 where
  getting : String → StoreCall
  applying : String → BillingCycleState → BillingCycleState → ℕ → StoreCall
  recording : String → String → StoreCall

pub data Answer : Type 0 where
  row : Option BillingCycleRow → Answer
  flag : Bool → Answer

unfoldable pub memory_call : Store → StoreCall → Store × Answer
memory_call s (getting id) = (s, row (Store.get_cycle s id))
memory_call s (applying id from to v) =
    let (s', won) = Store.apply_transition s id from to v in (s', flag won)
memory_call s (recording cycle_id key) =
    let (s', fresh) = Store.record_finalization s cycle_id key in (s', flag fresh)

unfoldable pub answered :
    PgDb → Result PgError (Option BillingCycleRow) → Result PgError (PgDb × Answer)
answered db (ok r) = ok (db, row r)
answered db (throws e) = throws e

unfoldable pub flagged : Result PgError (PgDb × Bool) → Result PgError (PgDb × Answer)
flagged (ok (db, b)) = ok (db, flag b)
flagged (throws e) = throws e

unfoldable pub postgres_call : PgDb → StoreCall → Result PgError (PgDb × Answer)
postgres_call db (getting id) = answered db (get_cycle db id)
postgres_call db (applying id from to v) = flagged (apply_transition db id from to v)
postgres_call db (recording cycle_id key) = flagged (record_finalization db cycle_id key)
