-- ===== src/Billing/StateMachine/Chain.antt =====
-- The legal transitions of src/billing/state_machine.ts form one chain.
use iot_billing_backend.Common.{
  ℕ, suc, ◌≤◌, ◌≡◌, refl, ◌↔◌, true, false, none, some, arith, String, ◌⊎◌, inl, inr, str_eq,
  eq_iff, Bool-cases,
}
use iot_billing_backend.Common.Result.{ok, throws}
use iot_billing_backend.Billing.StateMachine.{
  BillingCycleState, opened, finalizing, finalized, settled, state_value, is_billing_cycle_state,
  validate_transition, assert_transition, next_state, is_terminal,
}

-- Runs of legal transitions.
pub data Reach (a : BillingCycleState) : BillingCycleState → Type 0 where
  here : Reach a a
  next : {b c : BillingCycleState} → Reach a b → validate_transition b c ≡ true → Reach a c

-- The place of a state in the life of a cycle.
abbrev pub rank : BillingCycleState → ℕ
rank opened = 0
rank finalizing = 1
rank finalized = 2
rank settled = 3

validate_rank : (a b : BillingCycleState) → validate_transition a b ≡ true → rank b ≡ suc (rank a)
unfolding validate_transition
validate_rank a b h = ground arith

rank_of_Reach : {a b : BillingCycleState} → Reach a b → rank a ≤ rank b
rank_of_Reach here = omega arith
rank_of_Reach (next {b = b} {c = c} r v) = omega (arith, rank_of_Reach r, validate_rank b c v)

opened_finalizing : validate_transition opened finalizing ≡ true
unfolding validate_transition
opened_finalizing = refl

finalizing_finalized : validate_transition finalizing finalized ≡ true
unfolding validate_transition
finalizing_finalized = refl

finalized_settled : validate_transition finalized settled ≡ true
unfolding validate_transition
finalized_settled = refl

Reach_of_rank : (a b : BillingCycleState) → rank a ≤ rank b → Reach a b
Reach_of_rank opened opened h = here
Reach_of_rank opened finalizing h = next here opened_finalizing
Reach_of_rank opened finalized h = next (next here opened_finalizing) finalizing_finalized
Reach_of_rank opened settled h =
    next (next (next here opened_finalizing) finalizing_finalized) finalized_settled
Reach_of_rank finalizing opened h = absurd (omega arith)
Reach_of_rank finalizing finalizing h = here
Reach_of_rank finalizing finalized h = next here finalizing_finalized
Reach_of_rank finalizing settled h = next (next here finalizing_finalized) finalized_settled
Reach_of_rank finalized opened h = absurd (omega arith)
Reach_of_rank finalized finalizing h = absurd (omega arith)
Reach_of_rank finalized finalized h = here
Reach_of_rank finalized settled h = next here finalized_settled
Reach_of_rank settled opened h = absurd (omega arith)
Reach_of_rank settled finalizing h = absurd (omega arith)
Reach_of_rank settled finalized h = absurd (omega arith)
Reach_of_rank settled settled h = here

-- One state is reached from another by legal transitions exactly when it stands at the same place
-- or later in the order OPEN, FINALIZING, FINALIZED, SETTLED. So no legal run goes back.
pub Reach_iff_rank : (a b : BillingCycleState) → Reach a b ↔ (rank a ≤ rank b)
Reach_iff_rank a b = (rank_of_Reach, Reach_of_rank a b)

-- `nextState` gives the one legal successor: a transition is legal exactly when its target is the
-- value of `nextState`, `isTerminal` holds exactly where `nextState` is null, and
-- `assertTransition` returns exactly on the legal transitions and otherwise throws the error that
-- names the two states.
pub transitions_agree :
    (a b : BillingCycleState)
    → ((validate_transition a b ≡ true) ↔ (next_state a ≡ some b))
      × ((is_terminal a ≡ true) ↔ (next_state a ≡ none))
      × (((validate_transition a b ≡ true) × (assert_transition a b ≡ ok tt))
          ⊎ ((validate_transition a b ≡ false)
              × (assert_transition a b ≡ throws (record { from = a; to = b }))))
unfolding validate_transition assert_transition next_state is_terminal
transitions_agree a b = (ground arith, ground arith, ground arith)

state_of_value :
    (v : String) → is_billing_cycle_state v ≡ true → (s : BillingCycleState) × (state_value s ≡ v)
unfolding is_billing_cycle_state
state_of_value v h = elim (Bool-cases (str_eq "OPEN" v)) [
  | inl e ↦ (opened, (eq_iff _ v).0 e)
  | inr n ↦ elim (Bool-cases (str_eq "FINALIZING" v)) [
    | inl e ↦ (finalizing, (eq_iff _ v).0 e)
    | inr m ↦ elim (Bool-cases (str_eq "FINALIZED" v)) [
      | inl e ↦ (finalized, (eq_iff _ v).0 e)
      | inr k ↦ (settled, (eq_iff _ v).0 (ground arith))
    ]
  ]
]

state_value_accepted : (s : BillingCycleState) → is_billing_cycle_state (state_value s) ≡ true
unfolding is_billing_cycle_state
state_value_accepted opened = refl
state_value_accepted _ = refl

-- The guard `isBillingCycleState` accepts a string exactly when it is the value of a state.
pub is_billing_cycle_state_iff :
    (v : String)
    → (is_billing_cycle_state v ≡ true) ↔ ((s : BillingCycleState) × (state_value s ≡ v))
is_billing_cycle_state_iff v = (state_of_value v, λ p. rw (← p.1) (state_value_accepted p.0))
