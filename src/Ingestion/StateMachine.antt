-- ===== src/Ingestion/StateMachine.antt =====
-- src/core/ingestion/state_machine.ts: the states of a record and the resync timer.
pub mod History
use iot_billing_backend.Common.{
  ℕ, String, Bool, true, false, List, [], ◌∷◌, ◌++◌, ◌||◌, ◌&&◌, not, if◌then◌else◌,
}

pub data IngestionState : Type 0 where
  pending tentative settled rolled_back reconciling failed gap_detected : IngestionState

-- `===` on the enum.
abbrev pub state_eq : IngestionState → IngestionState → Bool
state_eq pending pending = true
state_eq tentative tentative = true
state_eq settled settled = true
state_eq rolled_back rolled_back = true
state_eq reconciling reconciling = true
state_eq failed failed = true
state_eq gap_detected gap_detected = true
state_eq _ _ = false

-- VALID_TRANSITIONS
abbrev pub valid_transitions : IngestionState → List IngestionState
valid_transitions pending = tentative ∷ failed ∷ gap_detected ∷ []
valid_transitions tentative = settled ∷ rolled_back ∷ failed ∷ gap_detected ∷ []
valid_transitions settled = []
valid_transitions rolled_back = reconciling ∷ []
valid_transitions reconciling = pending ∷ failed ∷ []
valid_transitions failed = []
valid_transitions gap_detected = pending ∷ failed ∷ []

abbrev includes : List IngestionState → IngestionState → Bool
includes [] s = false
includes (x ∷ xs) s = state_eq x s || includes xs s

pub record StateTransition : Type 0 where
  pub from : IngestionState
  pub to : IngestionState
  pub timestamp : ℕ
  pub reason : String

-- The fields of an IngestionStateMachine; of `resyncTimer`, whether it is set.
pub record Machine : Type 0 where
  pub state : IngestionState
  pub history : List StateTransition
  pub resync_timer : Bool

-- The constructor.
abbrev pub new_machine : IngestionState → Machine
new_machine initial = record {
  state = initial;
  history = [];
  resync_timer = state_eq initial gap_detected;
}

unfoldable pub can_transition_to : Machine → IngestionState → Bool
can_transition_to m to = includes (valid_transitions m.state) to

abbrev pub new_transition : IngestionState → IngestionState → ℕ → String → StateTransition
new_transition from to now reason = record {
  from = from;
  to = to;
  timestamp = now;
  reason = reason;
}

-- clearResyncTimer, when the machine leaves GAP_DETECTED.
abbrev leave_gap : IngestionState → Machine → Machine
leave_gap to m =
    if state_eq m.state gap_detected && not (state_eq to gap_detected)
    then record m { resync_timer = false }
    else m

-- startResyncTimer, when it enters GAP_DETECTED.
abbrev enter_gap : Machine → Machine
enter_gap m = if state_eq m.state gap_detected then record m { resync_timer = true } else m

abbrev move : IngestionState → ℕ → String → Machine → Machine
move to now reason m = record m {
  history = m.history ++ new_transition m.state to now reason ∷ [];
  state = to;
}

unfoldable pub transition : IngestionState → ℕ → String → Machine → Bool × Machine
transition to now reason m =
    if not (includes (valid_transitions m.state) to)
    then (false, m)
    else (true, enter_gap (move to now reason (leave_gap to m)))

-- A call of `transition`: its arguments and the clock.
pub record Request : Type 0 where
  pub to : IngestionState
  pub now : ℕ
  pub reason : String

unfoldable pub transition_all : List Request → Machine → Machine
transition_all [] m = m
transition_all (r ∷ rs) m = transition_all rs (transition r.to r.now r.reason m).1

-- src/core/blockchain/balance_manager.ts: BillingStateMachine.
unfoldable pub handle_on_chain_rejection : ℕ → String → Machine → Bool × Machine
unfolding transition
handle_on_chain_rejection now reason m =
    if state_eq m.state tentative
    then transition reconciling now "Starting reconciliation after rollback"
        (transition rolled_back now reason m).1
    else (false, m)

unfoldable pub complete_reconciliation : ℕ → Machine → Bool × Machine
unfolding transition
complete_reconciliation now m = transition pending now "Reconciliation completed, ready for retry" m

unfoldable pub fail_reconciliation : ℕ → String → Machine → Bool × Machine
unfolding transition
fail_reconciliation now reason m = transition failed now reason m
