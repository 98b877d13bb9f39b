-- ===== src/Billing/Store/Postgres/Run.antt =====
-- src/billing/billing_cycle_repository.ts: runs of calls, and a transition under `withCycleLock`.
use iot_billing_backend.Common.{
  ◌+◌, ◌≤◌, ◌≡◌, refl, sym, ap, ◌∙◌, String, Bool, true, false, Option, none, some, List, [], ◌∷◌,
  arith, eq_iff,
}
use mathlib.Core.Path.{subst}
use iot_billing_backend.Common.Dict.{put}
use iot_billing_backend.Common.Result.{Result, ok, throws}
use iot_billing_backend.Billing.StateMachine.{
  BillingCycleState, opened, finalizing, finalized, settled, state_eq,
}
use iot_billing_backend.Billing.Store.{BillingCycleRow, Cycle, Store}
use iot_billing_backend.Billing.Store.Postgres.{
  CycleQueryRow, PgDb, PgError, has_id, integer_max, select_cycle, with_cycle_lock,
  apply_transition, get_cycle, first_row, update_rows,
}
use iot_billing_backend.Billing.Store.Postgres.Tables.{
  Valid, abs, abs_cycles, cycle_of, update_rows_met,
}
use iot_billing_backend.Billing.Store.Postgres.Constraints.{select_cycle-Valid, matches_lem}
use iot_billing_backend.Billing.Store.Postgres.Calls.{
  StoreCall, getting, applying, recording, Answer, memory_call, postgres_call,
}
use iot_billing_backend.Billing.Store.Postgres.Refinement.{
  Fits, Simulates, postgres_call-Simulates, first_row_known, apply_changed,
}

-- The answers to a sequence of calls.
unfoldable pub memory_all : Store → List StoreCall → List Answer
memory_all s [] = []
memory_all s (c ∷ cs) = (memory_call s c).1 ∷ memory_all (memory_call s c).0 cs

unfoldable pub prepend : Answer → Result PgError (List Answer) → Result PgError (List Answer)
prepend a (ok answers) = ok (a ∷ answers)
prepend a (throws e) = throws e

unfoldable pub and_then :
    Result PgError (PgDb × Answer)
    → (PgDb → Result PgError (List Answer))
    → Result PgError (List Answer)
and_then (ok (db, a)) rest = prepend a (rest db)
and_then (throws e) rest = throws e

unfoldable pub postgres_all : PgDb → List StoreCall → Result PgError (List Answer)
postgres_all db [] = ok []
postgres_all db (c ∷ cs) = and_then (postgres_call db c) (λ db'. postgres_all db' cs)

-- The database accepts every call of the sequence: no call changes which cycles exist.
unfoldable pub AllFit : List CycleQueryRow → List StoreCall → Type 0
AllFit rs [] = Unit {0}
AllFit rs (c ∷ cs) = Fits rs c × AllFit rs cs

SameIds : PgDb → PgDb → Type 0
SameIds db db' = (x : String) → has_id x db'.billing_cycles ≡ has_id x db.billing_cycles

Fits-kept :
    (db db' : PgDb) (c : StoreCall)
    → SameIds db db'
    → Fits db.billing_cycles c
    → Fits db'.billing_cycles c
unfolding Fits SameIds
Fits-kept db db' (getting id) same fits = fits
Fits-kept db db' (applying id from to v) same fits = fits
Fits-kept db db' (recording cycle_id key) same fits = same cycle_id ∙ fits

AllFit-kept :
    (db db' : PgDb) (cs : List StoreCall)
    → SameIds db db'
    → AllFit db.billing_cycles cs
    → AllFit db'.billing_cycles cs
unfolding AllFit
AllFit-kept db db' [] same fits = fits
AllFit-kept db db' (c ∷ cs) same (fit, fits) =
    (Fits-kept db db' c same fit, AllFit-kept db db' cs same fits)

-- A simulated call, and then the rest of the run.
and_then_lem :
    (db : PgDb) (r : Result PgError (PgDb × Answer)) (m : Store × Answer) (cs : List StoreCall)
    → Simulates db r m
    → ((db' : PgDb)
        → Valid db'.billing_cycles
        → SameIds db db'
        → postgres_all db' cs ≡ ok (memory_all (abs db') cs))
    → and_then r (λ db'. postgres_all db' cs) ≡ ok (m.1 ∷ memory_all m.0 cs)
unfolding and_then prepend Simulates SameIds
and_then_lem db (throws e) (s, b) cs h rest = ground (arith, h)
and_then_lem db (ok (db', a)) (s, b) cs (same, stands, valid, ids) rest =
    ap (prepend a) (rest db' valid ids)
    ∙ ap (λ x. ok (x ∷ memory_all (abs db') cs)) same
    ∙ ap (λ t. ok (b ∷ memory_all t cs)) stands

-- The Postgres store refines the in-memory store: on tables that meet their PRIMARY KEY and CHECK
-- constraints, any sequence of `getCycle`, `applyTransition` and `recordFinalization` whose
-- expected versions are below the greatest INTEGER and whose finalized cycles exist runs without
-- an error and gives, call by call, the answers that the in-memory store gives when it starts with
-- the cycles of the table and the keys of the log.
pub postgres_all_refines :
    (cs : List StoreCall) (db : PgDb)
    → Valid db.billing_cycles
    → AllFit db.billing_cycles cs
    → postgres_all db cs ≡ ok (memory_all (abs db) cs)
unfolding postgres_all memory_all AllFit
postgres_all_refines [] db valid fits = refl
postgres_all_refines (c ∷ cs) db valid (fit, fits) =
    and_then_lem db (postgres_call db c) (memory_call (abs db) c) cs
      (postgres_call-Simulates db c valid fit)
      (λ db' valid' same. postgres_all_refines cs db' valid' (AllFit-kept db db' cs same fits))

state_eq_self : (s : BillingCycleState) → state_eq s s ≡ true
state_eq_self opened = refl
state_eq_self finalizing = refl
state_eq_self finalized = refl
state_eq_self settled = refl

-- The callback that applies a transition from the row that it was given.
unfoldable pub apply_locked :
    BillingCycleState → PgDb → Option BillingCycleRow → Result PgError (PgDb × Bool)
apply_locked to db none = ok (db, false)
apply_locked to db (some row) = apply_transition db row.id row.state to row.lock_version

with_cycle_lock_commits :
    (T : Type 0) (db db' : PgDb) (id : String)
    (fn : PgDb → Option BillingCycleRow → Result PgError (PgDb × T)) (o : Option BillingCycleRow)
    (result : T)
    → get_cycle db id ≡ ok o
    → fn db o ≡ ok (db', result)
    → with_cycle_lock db id fn ≡ (db', ok result)
unfolding with_cycle_lock
with_cycle_lock_commits T db db' id fn o result read ran = rw (read, with_cycle_lock, ran) refl

-- Under `withCycleLock` the guard of `applyTransition` cannot fail: on tables that meet their
-- constraints, for a cycle that exists with a version below the greatest INTEGER, a callback that
-- applies a transition from the locked row gets true, and the commit leaves the tables that stand
-- for the old cycles with this one in the new state at the next version.
pub with_cycle_lock_wins :
    (db : PgDb) (r : CycleQueryRow) (id : String) (to : BillingCycleState)
    → Valid db.billing_cycles
    → select_cycle id db.billing_cycles ≡ some r
    → r.lock_version + 1 ≤ integer_max
    → let (db', result) = with_cycle_lock db id (apply_locked to) in
      (result ≡ ok true)
      × ((abs db').cycles
          ≡ put id (record { state = to; lock_version = r.lock_version + 1 }) (abs db).cycles)
unfolding apply_locked get_cycle abs cycle_of
with_cycle_lock_wins db r id to valid found fits =
    let (same, known) = select_cycle-Valid id db.billing_cycles r valid found in
    let from = (cycle_of r).state in
    let met =
      matches_lem r.id from r.lock_version r ((eq_iff r.id r.id).1 refl) known
      ∙ ground (arith, state_eq_self from) in
    let found' =
      subst (λ i. select_cycle i db.billing_cycles ≡ some r) (sym ((eq_iff r.id id).0 same))
        found in
    let (kept, one) =
      update_rows_met r.id from to r.lock_version db.billing_cycles r valid found' met in
    let done =
      with_cycle_lock_commits Bool db
        (record db {
          billing_cycles = (update_rows r.id from to r.lock_version db.billing_cycles).0;
        })
        id (apply_locked to) _ true (ap first_row found ∙ first_row_known r known)
        (apply_changed db r.id from to r.lock_version one fits) in
    rw (done)
      (refl, kept ∙ ap (λ i. put i next (abs_cycles db.billing_cycles)) ((eq_iff r.id id).0 same))
  where
    next : Cycle
    next = record { state = to; lock_version = r.lock_version + 1 }
