-- ===== src/Billing/StateMachine.antt =====
-- src/billing/state_machine.ts: the states of a billing cycle and its legal transitions.
pub mod Chain
use iot_billing_backend.Common.{
  String, Bool, true, false, Option, none, some, List, [], ◌∷◌, ◌||◌, not, str_eq, map,
  if◌then◌else◌,
}
use iot_billing_backend.Common.Result.{Result, ok, throws}

-- The enum's member OPEN is `opened` here (`open` is a reserved word).
pub data BillingCycleState : Type 0 where
  opened finalizing finalized settled : BillingCycleState

-- `===` on the enum.
abbrev pub state_eq : BillingCycleState → BillingCycleState → Bool
state_eq opened opened = true
state_eq finalizing finalizing = true
state_eq finalized finalized = true
state_eq settled settled = true
state_eq _ _ = false

-- The enum's values, the strings that the database holds.
abbrev pub state_value : BillingCycleState → String
state_value opened = "OPEN"
state_value finalizing = "FINALIZING"
state_value finalized = "FINALIZED"
state_value settled = "SETTLED"

abbrev pub all_states : List BillingCycleState
all_states = opened ∷ finalizing ∷ finalized ∷ settled ∷ []

-- VALID_TRANSITIONS
abbrev pub valid_transitions : BillingCycleState → List BillingCycleState
valid_transitions opened = finalizing ∷ []
valid_transitions finalizing = finalized ∷ []
valid_transitions finalized = settled ∷ []
valid_transitions settled = []

-- `Array.prototype.includes`, on states and on strings.
abbrev includes : List BillingCycleState → BillingCycleState → Bool
includes [] s = false
includes (x ∷ xs) s = state_eq x s || includes xs s

abbrev includes_value : List String → String → Bool
includes_value [] v = false
includes_value (x ∷ xs) v = str_eq x v || includes_value xs v

pub record InvalidStateTransitionError : Type 0 where
  pub from : BillingCycleState
  pub to : BillingCycleState

unfoldable pub is_billing_cycle_state : String → Bool
is_billing_cycle_state value = includes_value (map state_value all_states) value

unfoldable pub validate_transition : BillingCycleState → BillingCycleState → Bool
validate_transition current next = includes (valid_transitions current) next

unfoldable pub assert_transition :
    BillingCycleState → BillingCycleState → Result InvalidStateTransitionError (Unit {0})
unfolding validate_transition
assert_transition current next =
    if not (validate_transition current next)
    then throws (record { from = current; to = next })
    else ok tt

-- `VALID_TRANSITIONS[current][0] ?? null`
unfoldable pub next_state : BillingCycleState → Option BillingCycleState
next_state current = elim (valid_transitions current) [ [] ↦ none | s ∷ rest ↦ some s ]

unfoldable pub is_terminal : BillingCycleState → Bool
is_terminal state = elim (valid_transitions state) [ [] ↦ true | s ∷ rest ↦ false ]
