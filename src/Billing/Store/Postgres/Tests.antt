-- ===== src/Billing/Store/Postgres/Tests.antt =====
-- Runs of the theorems about the Postgres store on small tables.
use iot_billing_backend.Common.{◌≡◌, refl, List, [], ◌∷◌, arith}
use iot_billing_backend.Common.Result.{ok}
use iot_billing_backend.Billing.StateMachine.{opened, finalizing}
use iot_billing_backend.Billing.Store.Postgres.{CycleQueryRow, PgDb, select_cycle, has_id, as_state}
use iot_billing_backend.Billing.Store.Postgres.Tables.{Valid, abs, is_known}
use iot_billing_backend.Billing.Store.Postgres.Calls.{StoreCall, getting, applying, recording}
use iot_billing_backend.Billing.Store.Postgres.Refinement.{Fits}
use iot_billing_backend.Billing.Store.Postgres.Run.{
  postgres_all, memory_all, postgres_all_refines, AllFit,
}

abbrev march : CycleQueryRow
march = record { id = "march"; state = "OPEN"; lock_version = 1 }

abbrev april : CycleQueryRow
april = record { id = "april"; state = "FINALIZED"; lock_version = 3 }

abbrev db : PgDb
db = record { billing_cycles = march ∷ april ∷ []; billing_finalization_log = ("april", "k1") ∷ [] }

abbrev calls : List StoreCall
calls =
    getting "april"
    ∷ applying "march" opened finalizing 1
    ∷ applying "march" opened finalizing 1
    ∷ recording "march" "k2"
    ∷ recording "april" "k1"
    ∷ getting "march"
    ∷ []

db-Valid : Valid db.billing_cycles
unfolding Valid has_id select_cycle is_known as_state
db-Valid = (refl, refl, (refl, refl, tt))

calls-AllFit : AllFit db.billing_cycles calls
unfolding AllFit Fits has_id select_cycle
calls-AllFit = (tt, (omega arith, (omega arith, (refl, (refl, (tt, tt))))))

postgres_all_refines_example : postgres_all db calls ≡ ok (memory_all (abs db) calls)
postgres_all_refines_example = postgres_all_refines calls db db-Valid calls-AllFit
