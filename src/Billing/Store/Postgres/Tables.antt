-- ===== src/Billing/Store/Postgres/Tables.antt =====
-- src/billing/billing_cycle_repository.ts: what the statements of the Postgres store do to its
-- tables, read as the in-memory store.
use iot_billing_backend.Common.{
  ℕ, ◌+◌, ◌≡◌, refl, ap, String, Bool, true, false, Option, none, some, List, [], ◌∷◌, str_eq,
  eq_iff, arith, Bool-cases, Option-cases, inl, inr,
}
use iot_billing_backend.Common.Dict.{Dict, get, put}
use iot_billing_backend.Billing.StateMachine.{
  BillingCycleState, opened, finalizing, finalized, settled, state_value, all_states,
}
use iot_billing_backend.Billing.Store.{Cycle, Store}
use iot_billing_backend.Billing.Store.Postgres.{
  CycleQueryRow, PgDb, as_state, select_cycle, matches, update_rows, has_id, log_keys,
}

pub as_state-state_value : (s : BillingCycleState) → as_state all_states (state_value s) ≡ some s
unfolding as_state
as_state-state_value opened = refl
as_state-state_value finalizing = refl
as_state-state_value finalized = refl
as_state-state_value settled = refl

-- The state of a row, for a row whose state is one of the four.
unfoldable pub state_of : Option BillingCycleState → BillingCycleState
state_of none = opened
state_of (some s) = s

unfoldable pub is_known : Option BillingCycleState → Bool
is_known none = false
is_known (some s) = true

unfoldable pub cycle_of : CycleQueryRow → Cycle
cycle_of r = record {
  state = state_of (as_state all_states r.state);
  lock_version = r.lock_version;
}

unfoldable pub abs_cycles : List CycleQueryRow → Dict Cycle
abs_cycles [] = []
abs_cycles (r ∷ rs) = (r.id, cycle_of r) ∷ abs_cycles rs

-- The in-memory store that a database stands for: it forgets the cycles of the log.
unfoldable pub abs : PgDb → Store
abs db = record {
  cycles = abs_cycles db.billing_cycles;
  idempotency_keys = log_keys db.billing_finalization_log;
}

-- The PRIMARY KEY on the id and the CHECK on the state.
unfoldable pub Valid : List CycleQueryRow → Type 0
Valid [] = Unit {0}
Valid (r ∷ rs) =
    (has_id r.id rs ≡ false) × (is_known (as_state all_states r.state) ≡ true) × Valid rs

-- The row of a cycle is in the table exactly when the store has the cycle.
pub get-abs_cycles :
    (id : String) (rs : List CycleQueryRow)
    → get id (abs_cycles rs)
      ≡ elim (select_cycle id rs) [ none ↦ none | some r ↦ some (cycle_of r) ]
unfolding get abs_cycles select_cycle
get-abs_cycles id [] = refl
get-abs_cycles id (r ∷ rs) = elim (Bool-cases (str_eq r.id id)) [
  | inl same ↦ rw (same) refl
  | inr other ↦ rw (other) (get-abs_cycles id rs)
]

pub update_rows_absent :
    (id : String) (from to : BillingCycleState) (v : ℕ) (rs : List CycleQueryRow)
    → select_cycle id rs ≡ none
    → update_rows id from to v rs ≡ (rs, 0)
unfolding update_rows select_cycle matches
update_rows_absent id from to v [] absent = refl
update_rows_absent id from to v (r ∷ rs) absent = elim (Bool-cases (str_eq r.id id)) [
  | inl same ↦ ground (arith, same, absent)
  | inr other ↦ ground (arith, other, absent, update_rows_absent id from to v rs)
]

has_id_absent :
    (id : String) (rs : List CycleQueryRow) → has_id id rs ≡ false → select_cycle id rs ≡ none
unfolding has_id
has_id_absent id rs h = elim (Option-cases (select_cycle id rs)) [
  | inl e ↦ e
  | inr (r, e) ↦ ground (arith, e, h)
]

other_unmatched :
    (id : String) (from : BillingCycleState) (v : ℕ) (r : CycleQueryRow)
    → str_eq r.id id ≡ false
    → matches id from v r ≡ false
unfolding matches
other_unmatched id from v r other = rw (other) refl

-- An UPDATE whose WHERE clause the row of the cycle does not meet changes nothing.
pub update_rows_missed :
    (id : String) (from to : BillingCycleState) (v : ℕ) (rs : List CycleQueryRow)
    (row : CycleQueryRow)
    → Valid rs
    → select_cycle id rs ≡ some row
    → matches id from v row ≡ false
    → update_rows id from to v rs ≡ (rs, 0)
unfolding update_rows select_cycle Valid
update_rows_missed id from to v [] row valid found missed = refl
update_rows_missed id from to v (r ∷ rs) row (fresh, known, valid) found missed =
    elim (Bool-cases (str_eq r.id id)) [
      | inl same ↦ ground (
        arith,
        same,
        found,
        missed,
        fresh,
        eq_iff r.id id,
        update_rows_absent id from to v rs
            (has_id_absent id rs (ground (arith, fresh, same, eq_iff r.id id))),
      )
      | inr other ↦ ground (
        arith,
        other,
        found,
        missed,
        other_unmatched id from v r other,
        update_rows_missed id from to v rs row valid,
      )
    ]

matched_version :
    (id : String) (from : BillingCycleState) (v : ℕ) (r : CycleQueryRow)
    → matches id from v r ≡ true
    → r.lock_version ≡ v
unfolding matches
matched_version id from v r met = ground (arith, met)

update_rows_first :
    (id : String) (from to : BillingCycleState) (v : ℕ) (r : CycleQueryRow)
    (rs : List CycleQueryRow)
    → str_eq r.id id ≡ true
    → matches id from v r ≡ true
    → update_rows id from to v rs ≡ (rs, 0)
    → (abs_cycles (update_rows id from to v (r ∷ rs)).0
        ≡ put id (record { state = to; lock_version = v + 1 }) (abs_cycles (r ∷ rs)))
      × ((update_rows id from to v (r ∷ rs)).1 ≡ 1)
unfolding update_rows abs_cycles put cycle_of state_of
update_rows_first id from to v r rs same met rest =
    rw (met, rest, same, as_state-state_value to, matched_version id from v r met) (refl, refl)

-- An UPDATE whose WHERE clause the row of the cycle meets changes that row alone.
pub update_rows_met :
    (id : String) (from to : BillingCycleState) (v : ℕ) (rs : List CycleQueryRow)
    (row : CycleQueryRow)
    → Valid rs
    → select_cycle id rs ≡ some row
    → matches id from v row ≡ true
    → (abs_cycles (update_rows id from to v rs).0
        ≡ put id (record { state = to; lock_version = v + 1 }) (abs_cycles rs))
      × ((update_rows id from to v rs).1 ≡ 1)
unfolding update_rows select_cycle Valid abs_cycles put
update_rows_met id from to v [] row valid found met = ground (arith, found)
update_rows_met id from to v (r ∷ rs) row (fresh, known, valid) found met =
    elim (Bool-cases (str_eq r.id id)) [
      | inl same ↦ update_rows_first id from to v r rs same (ground (arith, same, found, met)) (
          update_rows_absent id from to v rs
            (has_id_absent id rs (ground (arith, fresh, same, eq_iff r.id id))))
      | inr other ↦
          let (kept, one) =
            update_rows_met id from to v rs row valid (ground (arith, found, other)) met in
          rw (other, other_unmatched id from v r other) (ap (λ d. (r.id, cycle_of r) ∷ d) kept, one)
    ]
