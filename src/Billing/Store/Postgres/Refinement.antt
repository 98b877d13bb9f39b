-- ===== src/Billing/Store/Postgres/Refinement.antt =====
-- src/billing/billing_cycle_repository.ts: the Postgres store refines the in-memory store.
use iot_billing_backend.Common.{
  ℕ, ◌+◌, ◌≤◌, ◌≡◌, refl, sym, ap, ◌∙◌, String, Bool, true, false, ◌&&◌, none, some, List, ◌==◌,
  ltb, if◌then◌else◌, eq_iff, arith, Bool-cases, Option-cases, inl, inr,
}
use iot_billing_backend.Common.Dict.{get}
use iot_billing_backend.Common.Result.{Result, ok, throws}
use iot_billing_backend.Billing.StateMachine.{BillingCycleState, all_states}
use iot_billing_backend.Billing.Store
use iot_billing_backend.Billing.Store.{BillingCycleRow, Cycle, Store}
use iot_billing_backend.Billing.Store.Branches.{
  memory_get_cycle_absent, memory_get_cycle_found, memory_apply_absent, memory_apply_missed,
  memory_apply_met,
}
use iot_billing_backend.Billing.Store.Postgres.{
  CycleQueryRow, PgDb, PgError, integer_max, integer_out_of_range, select_cycle, matches,
  update_rows, has_id, log_keys, to_row, first_row, get_cycle, apply_transition,
  record_finalization, as_state,
}
use iot_billing_backend.Billing.Store.Postgres.Tables.{
  Valid, abs, get-abs_cycles, update_rows_absent, update_rows_missed, update_rows_met, is_known,
  state_of, cycle_of,
}
use iot_billing_backend.Billing.Store.Postgres.Constraints.{
  has_id-update_rows, update_rows-Valid, select_cycle-Valid, matches_lem,
}
use iot_billing_backend.Billing.Store.Postgres.Calls.{
  StoreCall, getting, applying, recording, Answer, row, flag, memory_call, answered, flagged,
  postgres_call,
}

-- A call that the database accepts: a transition that expects a version below the greatest
-- INTEGER, and a finalization of a cycle that exists.
unfoldable pub Fits : List CycleQueryRow → StoreCall → Type 0
Fits rs (getting id) = Unit {0}
Fits rs (applying id from to v) = v + 1 ≤ integer_max
Fits rs (recording cycle_id key) = has_id cycle_id rs ≡ true

-- The call has not thrown, its answer is that of the in-memory store, its database stands for the
-- in-memory store after the call, and keeps its constraints and its cycles.
unfoldable pub Simulates : PgDb → Result PgError (PgDb × Answer) → Store × Answer → Type 0
Simulates db (throws e) (s, b) = true ≡ false
Simulates db (ok (db', a)) (s, b) =
    (a ≡ b)
    × (abs db' ≡ s)
    × Valid db'.billing_cycles
    × ((x : String) → has_id x db'.billing_cycles ≡ has_id x db.billing_cycles)

pub first_row_known :
    (r : CycleQueryRow)
    → is_known (as_state all_states r.state) ≡ true
    → first_row (some r)
      ≡ ok (some (record { id = r.id; state = (cycle_of r).state; lock_version = r.lock_version }))
unfolding first_row to_row cycle_of is_known state_of
first_row_known r known = elim (Option-cases (as_state all_states r.state)) [
  | inl e ↦ ground (arith, e, known)
  | inr (s, e) ↦ rw (e, first_row, to_row) refl
]

first_row-none : first_row none ≡ ok none
unfolding first_row
first_row-none = refl

simulated :
    (db db' : PgDb) (a : Answer) (r : Result PgError (PgDb × Answer)) (m : Store × Answer)
    → r ≡ ok (db', a)
    → m ≡ (abs db', a)
    → Valid db'.billing_cycles
    → ((x : String) → has_id x db'.billing_cycles ≡ has_id x db.billing_cycles)
    → Simulates db r m
unfolding Simulates
simulated db db' a r m ran same valid ids = rw (ran, same) (refl, refl, valid, ids)

-- The cycle of the store that a row stands for.
get-abs_found :
    (db : PgDb) (id : String) (r : CycleQueryRow)
    → select_cycle id db.billing_cycles ≡ some r
    → get id (abs db).cycles ≡ some (cycle_of r)
unfolding abs
get-abs_found db id r found = rw (get-abs_cycles id db.billing_cycles, found) refl

get-abs_absent :
    (db : PgDb) (id : String)
    → select_cycle id db.billing_cycles ≡ none
    → get id (abs db).cycles ≡ none
unfolding abs
get-abs_absent db id absent = rw (get-abs_cycles id db.billing_cycles, absent) refl

getting-Simulates :
    (db : PgDb) (id : String)
    → Valid db.billing_cycles
    → Simulates db (postgres_call db (getting id)) (memory_call (abs db) (getting id))
unfolding postgres_call memory_call get_cycle answered cycle_of
getting-Simulates db id valid = elim (Option-cases (select_cycle id db.billing_cycles)) [
  | inl absent ↦
      simulated db db (row none) _ _
        (ap (λ r. answered db (first_row r)) absent ∙ ap (answered db) first_row-none)
        (ap (λ r. (abs db, row r))
          (memory_get_cycle_absent (abs db) id (get-abs_absent db id absent)))
        valid (λ x. refl)
  | inr (r, found) ↦
      let (same, known) = select_cycle-Valid id db.billing_cycles r valid found in
      simulated db db
        (row
          (some (record { id = r.id; state = (cycle_of r).state; lock_version = r.lock_version })))
        _ _ (ap (λ o. answered db (first_row o)) found ∙ ap (answered db) (first_row_known r known))
        (ap (λ o. (abs db, row o))
          (memory_get_cycle_found (abs db) id (cycle_of r) (get-abs_found db id r found)
            ∙ ap
                (λ i.
                  some
                    (record { id = i; state = (cycle_of r).state; lock_version = r.lock_version }))
                (sym ((eq_iff r.id id).0 same))))
        valid (λ x. refl)
]

recording-Simulates :
    (db : PgDb) (cycle_id key : String)
    → Valid db.billing_cycles
    → has_id cycle_id db.billing_cycles ≡ true
    → Simulates db
        (postgres_call db (recording cycle_id key))
        (memory_call (abs db) (recording cycle_id key))
unfolding postgres_call memory_call record_finalization Store.record_finalization flagged Simulates
    abs log_keys
recording-Simulates db cycle_id key valid known =
    elim (Bool-cases (Store.has_key key (log_keys db.billing_finalization_log))) [
      | inl old ↦ rw (old) (refl, refl, valid, λ x. refl)
      | inr new ↦ rw (new, known) (refl, refl, valid, λ x. refl)
    ]

-- The statement's answer, from its row count.
unfoldable counted : PgDb → ℕ → List CycleQueryRow × ℕ → Result PgError (PgDb × Bool)
counted db v (rs, row_count) =
    if ltb 0 row_count && ltb integer_max (v + 1)
    then throws integer_out_of_range
    else ok (record db { billing_cycles = rs }, row_count == 1)

apply_unchanged :
    (db : PgDb) (id : String) (from to : BillingCycleState) (v : ℕ)
    → update_rows id from to v db.billing_cycles ≡ (db.billing_cycles, 0)
    → apply_transition db id from to v ≡ ok (db, false)
unfolding apply_transition counted
apply_unchanged db id from to v e = ap (counted db v) e

pub apply_changed :
    (db : PgDb) (id : String) (from to : BillingCycleState) (v : ℕ)
    → (update_rows id from to v db.billing_cycles).1 ≡ 1
    → v + 1 ≤ integer_max
    → apply_transition db id from to v
      ≡ ok (record db { billing_cycles = (update_rows id from to v db.billing_cycles).0 }, true)
unfolding apply_transition
apply_changed db id from to v one fits = ground (arith, one, fits)

applying-Simulates :
    (db : PgDb) (id : String) (from to : BillingCycleState) (v : ℕ)
    → Valid db.billing_cycles
    → v + 1 ≤ integer_max
    → Simulates db
        (postgres_call db (applying id from to v))
        (memory_call (abs db) (applying id from to v))
unfolding postgres_call memory_call flagged abs cycle_of
applying-Simulates db id from to v valid fits = elim (Option-cases (select_cycle id rs)) [
  | inl absent ↦
      unchanged (update_rows_absent id from to v rs absent)
        (memory_apply_absent (abs db) id from to v (get-abs_absent db id absent))
  | inr (r, found) ↦
      let (same, known) = select_cycle-Valid id rs r valid found in
      let guard = matches_lem id from v r same known in
      elim (Bool-cases (matches id from v r)) [
        | inl met ↦
            let (kept, one) = update_rows_met id from to v rs r valid found met in
            simulated db (record db { billing_cycles = (update_rows id from to v rs).0 })
              (flag true) _ _ (ap flagged (apply_changed db id from to v one fits))
              (ap (λ m. (m.0, flag m.1))
                  (memory_apply_met (abs db) id from to v (cycle_of r) (get-abs_found db id r found)
                    (sym guard ∙ met))
                ∙ ap (λ cs. (record (abs db) { cycles = cs }, flag true)) (sym kept))
              (update_rows-Valid id from to v rs valid) (λ x. has_id-update_rows x id from to v rs)
        | inr missed ↦ unchanged (update_rows_missed id from to v rs r valid found missed) (
            memory_apply_missed (abs db) id from to v (cycle_of r) (get-abs_found db id r found)
              (sym guard ∙ missed))
      ]
]
  where
    rs : List CycleQueryRow
    rs = db.billing_cycles

    unchanged :
        update_rows id from to v rs ≡ (rs, 0)
        → Store.apply_transition (abs db) id from to v ≡ (abs db, false)
        → Simulates db
            (postgres_call db (applying id from to v))
            (memory_call (abs db) (applying id from to v))
    unchanged e f =
        simulated db db (flag false) _ _ (ap flagged (apply_unchanged db id from to v e))
          (ap (λ m. (m.0, flag m.1)) f) valid (λ x. refl)

-- One call: on tables that meet their constraints, and for a call that the database accepts, the
-- Postgres store answers as the in-memory store does on the store that the tables stand for.
pub postgres_call-Simulates :
    (db : PgDb) (c : StoreCall)
    → Valid db.billing_cycles
    → Fits db.billing_cycles c
    → Simulates db (postgres_call db c) (memory_call (abs db) c)
unfolding Fits
postgres_call-Simulates db (getting id) valid fits = getting-Simulates db id valid
postgres_call-Simulates db (applying id from to v) valid fits =
    applying-Simulates db id from to v valid fits
postgres_call-Simulates db (recording cycle_id key) valid fits =
    recording-Simulates db cycle_id key valid fits
