-- ===== src/Billing/Store/Postgres/Constraints.antt =====
-- src/billing/billing_cycle_repository.ts: the constraints of the billing tables, which every
-- statement keeps.
use iot_billing_backend.Common.{
  ℕ, ◌≡◌, refl, sym, ap, ◌∙◌, String, true, ◌&&◌, some, List, [], ◌∷◌, ◌==◌, str_eq, eq_iff, arith,
  Bool-cases, Option-cases, inl, inr,
}
use iot_billing_backend.Billing.StateMachine.{
  BillingCycleState, opened, finalizing, finalized, settled, state_value, state_eq, all_states,
}
use iot_billing_backend.Billing.Store.Postgres.{
  CycleQueryRow, as_state, select_cycle, matches, update_rows, has_id,
}
use iot_billing_backend.Billing.Store.Postgres.Tables.{
  Valid, is_known, state_of, as_state-state_value,
}

-- An UPDATE keeps the ids of the table.
pub has_id-update_rows :
    (x id : String) (from to : BillingCycleState) (v : ℕ) (rs : List CycleQueryRow)
    → has_id x (update_rows id from to v rs).0 ≡ has_id x rs
unfolding has_id update_rows select_cycle
has_id-update_rows x id from to v [] = refl
has_id-update_rows x id from to v (r ∷ rs) = ground (arith, has_id-update_rows x id from to v rs)

pub update_rows-Valid :
    (id : String) (from to : BillingCycleState) (v : ℕ) (rs : List CycleQueryRow)
    → Valid rs
    → Valid (update_rows id from to v rs).0
unfolding update_rows Valid is_known
update_rows-Valid id from to v [] valid = valid
update_rows-Valid id from to v (r ∷ rs) (fresh, known, valid) =
    let rest = update_rows-Valid id from to v rs valid in
    let fresh' = has_id-update_rows r.id id from to v rs ∙ fresh in
    elim (Bool-cases (matches id from v r)) [
      | inl met ↦ rw (met, as_state-state_value to) (fresh', refl, rest)
      | inr missed ↦ rw (missed) (fresh', known, rest)
    ]

pub select_cycle-Valid :
    (id : String) (rs : List CycleQueryRow) (row : CycleQueryRow)
    → Valid rs
    → select_cycle id rs ≡ some row
    → (str_eq row.id id ≡ true) × (is_known (as_state all_states row.state) ≡ true)
unfolding select_cycle Valid
select_cycle-Valid id [] row valid found = ground (arith, found)
select_cycle-Valid id (r ∷ rs) row (fresh, known, valid) found =
    elim (Bool-cases (str_eq r.id id)) [
      | inl same ↦ (ground (arith, same, found), ground (arith, same, found, known))
      | inr other ↦ select_cycle-Valid id rs row valid (ground (arith, other, found))
    ]

-- The guard of the UPDATE on the stored string is the guard of the in-memory store on the enum.
state_eq_value : (s t : BillingCycleState) → str_eq (state_value s) (state_value t) ≡ state_eq s t
state_eq_value opened opened = refl
state_eq_value opened finalizing = refl
state_eq_value opened finalized = refl
state_eq_value opened settled = refl
state_eq_value finalizing opened = refl
state_eq_value finalizing finalizing = refl
state_eq_value finalizing finalized = refl
state_eq_value finalizing settled = refl
state_eq_value finalized opened = refl
state_eq_value finalized finalizing = refl
state_eq_value finalized finalized = refl
state_eq_value finalized settled = refl
state_eq_value settled opened = refl
state_eq_value settled finalizing = refl
state_eq_value settled finalized = refl
state_eq_value settled settled = refl

as_state_value :
    (ss : List BillingCycleState) (value : String) (s : BillingCycleState)
    → as_state ss value ≡ some s
    → state_value s ≡ value
unfolding as_state
as_state_value [] value s e = ground (arith, e)
as_state_value (t ∷ ss) value s e = elim (Bool-cases (str_eq (state_value t) value)) [
  | inl same ↦ ground (arith, e, same, eq_iff (state_value t) value)
  | inr other ↦ as_state_value ss value s (ground (arith, other, e))
]

known_value :
    (value : String)
    → is_known (as_state all_states value) ≡ true
    → state_value (state_of (as_state all_states value)) ≡ value
unfolding is_known state_of
known_value value known = elim (Option-cases (as_state all_states value)) [
  | inl e ↦ ground (arith, e, known)
  | inr (s, e) ↦ rw (e) (as_state_value all_states value s e)
]

pub matches_lem :
    (id : String) (from : BillingCycleState) (v : ℕ) (r : CycleQueryRow)
    → str_eq r.id id ≡ true
    → is_known (as_state all_states r.state) ≡ true
    → matches id from v r
      ≡ (state_eq (state_of (as_state all_states r.state)) from && (r.lock_version == v))
unfolding matches
matches_lem id from v r same known =
    let s = state_of (as_state all_states r.state) in
    rw (same) (
      ap (λ b. b && (r.lock_version == v))
        (ap (λ value. str_eq value (state_value from)) (sym (known_value r.state known))
          ∙ state_eq_value s from))
