-- ===== src/Ingestion/StateMachine/History.antt =====
-- What runs of the ingestion state machine keep: its timer and its history.
use iot_billing_backend.Common.{
  ℕ, String, Bool, true, false, List, [], ◌∷◌, ◌++◌, ◌≡◌, inl, inr, arith, refl, Bool-cases,
  if◌then◌else◌,
}
use iot_billing_backend.Ingestion.StateMachine.{
  IngestionState, pending, tentative, settled, rolled_back, reconciling, failed, gap_detected,
  state_eq, Machine, new_machine, StateTransition, Request, can_transition_to, transition,
  transition_all, new_transition, handle_on_chain_rejection, complete_reconciliation,
}

-- Legal moves that lead from one state to another, oldest first.
pub Chained : IngestionState → List StateTransition → IngestionState → Type 0
unfolding can_transition_to
Chained a [] b = a ≡ b
Chained a (t ∷ ts) b =
    (t.from ≡ a) × (can_transition_to (new_machine a) t.to ≡ true) × Chained t.to ts b

-- The timer runs exactly in GAP_DETECTED, and the history explains the state.
pub Consistent : IngestionState → Machine → Type 0
unfolding Chained
Consistent initial m =
    (m.resync_timer ≡ state_eq m.state gap_detected) × Chained initial m.history m.state

Chained-append :
    (a b : IngestionState) (ts : List StateTransition) (t : StateTransition)
    → Chained a ts b
    → t.from ≡ b
    → can_transition_to (new_machine b) t.to ≡ true
    → Chained a (ts ++ t ∷ []) t.to
unfolding Chained can_transition_to
Chained-append a b [] t h e legal = (ground (arith, h, e), ground (arith, h, legal), refl)
Chained-append a b (x ∷ ts) t h e legal = (h.0, h.1, Chained-append x.to b ts t h.2 e legal)

-- The timer stands for the state after a move, whichever the state before it was.
transition-timer :
    (to : IngestionState) (now : ℕ) (reason : String) (m : Machine)
    → m.resync_timer ≡ state_eq m.state gap_detected
    → let m' = (transition to now reason m).1 in m'.resync_timer ≡ state_eq m'.state gap_detected
unfolding transition
transition-timer to now reason m h = ground (arith, h)

transition_moves :
    (to : IngestionState) (now : ℕ) (reason : String) (m : Machine)
    → can_transition_to m to ≡ true
    → ((transition to now reason m).1.history
        ≡ m.history ++ new_transition m.state to now reason ∷ [])
      × ((transition to now reason m).1.state ≡ to)
unfolding transition can_transition_to
transition_moves to now reason m h = (ground (arith, h), ground (arith, h))

transition_refuses :
    (to : IngestionState) (now : ℕ) (reason : String) (m : Machine)
    → can_transition_to m to ≡ false
    → transition to now reason m ≡ (false, m)
unfolding transition can_transition_to
transition_refuses to now reason m h = ground (arith, h)

can_transition_to_state :
    (m : Machine) (to : IngestionState)
    → can_transition_to m to ≡ true
    → can_transition_to (new_machine m.state) to ≡ true
unfolding can_transition_to
can_transition_to_state m to h = h

transition-Chained :
    (initial to : IngestionState) (now : ℕ) (reason : String) (m : Machine)
    → Chained initial m.history m.state
    → let m' = (transition to now reason m).1 in Chained initial m'.history m'.state
transition-Chained initial to now reason m h = elim (Bool-cases (can_transition_to m to)) [
  | inr e ↦ rw (transition_refuses to now reason m e) h
  | inl e ↦
      let (moved, there) = transition_moves to now reason m e in
      rw (moved, there)
        (Chained-append initial m.state m.history (new_transition m.state to now reason) h refl
          (can_transition_to_state m to e))
]

transition_all-Consistent_from :
    (initial : IngestionState) (rs : List Request) (m : Machine)
    → Consistent initial m
    → Consistent initial (transition_all rs m)
unfolding Consistent transition_all
transition_all-Consistent_from initial [] m h = h
transition_all-Consistent_from initial (r ∷ rs) m h =
    transition_all-Consistent_from initial rs (transition r.to r.now r.reason m).1 (
      transition-timer r.to r.now r.reason m h.0,
      transition-Chained initial r.to r.now r.reason m h.1,
    )

-- Whatever transitions are asked of a new machine: its resync timer is set exactly while it is in
-- GAP_DETECTED, and its history is a chain of legal transitions from the initial state to the
-- current one.
pub transition_all-Consistent :
    (initial : IngestionState) (rs : List Request)
    → Consistent initial (transition_all rs (new_machine initial))
unfolding Consistent
transition_all-Consistent initial rs =
    transition_all-Consistent_from initial rs (new_machine initial) (refl, refl)

snoc_twice :
    (ts : List StateTransition) (t u : StateTransition)
    → (ts ++ t ∷ []) ++ u ∷ [] ≡ ts ++ t ∷ u ∷ []
snoc_twice [] t u = refl
snoc_twice (x ∷ ts) t u = rw (snoc_twice ts t u)

abbrev Rejection : ℕ → ℕ → String → Machine → Type 0
Rejection now later reason m =
    if state_eq m.state tentative
    then ((handle_on_chain_rejection now reason m).0 ≡ true)
      × ((handle_on_chain_rejection now reason m).1.history
          ≡ m.history
            ++ new_transition tentative rolled_back now reason
              ∷ new_transition rolled_back reconciling now "Starting reconciliation after rollback"
              ∷ [])
      × ((complete_reconciliation later (handle_on_chain_rejection now reason m).1).1.state
          ≡ pending)
    else (handle_on_chain_rejection now reason m ≡ (false, m))

Rejection-at :
    (now later : ℕ) (reason : String) (s : IngestionState) (ts : List StateTransition)
    (timer : Bool)
    → Rejection now later reason (record { state = s; history = ts; resync_timer = timer })
unfolding handle_on_chain_rejection complete_reconciliation
Rejection-at now later reason tentative ts timer = (refl, snoc_twice ts _ _, refl)
Rejection-at now later reason pending ts timer = refl
Rejection-at now later reason settled ts timer = refl
Rejection-at now later reason rolled_back ts timer = refl
Rejection-at now later reason reconciling ts timer = refl
Rejection-at now later reason failed ts timer = refl
Rejection-at now later reason gap_detected ts timer = refl

-- A rejection by the ledger is accepted exactly in TENTATIVE. It leads to RECONCILING over
-- ROLLED_BACK, and then the record can go back to PENDING; in any other state nothing changes.
pub rejection_reconciles :
    (now later : ℕ) (reason : String) (m : Machine)
    → if state_eq m.state tentative
      then ((handle_on_chain_rejection now reason m).0 ≡ true)
        × ((handle_on_chain_rejection now reason m).1.history
            ≡ m.history
              ++ new_transition tentative rolled_back now reason
                ∷ new_transition rolled_back reconciling now
                    "Starting reconciliation after rollback"
                ∷ [])
        × ((complete_reconciliation later (handle_on_chain_rejection now reason m).1).1.state
            ≡ pending)
      else (handle_on_chain_rejection now reason m ≡ (false, m))
rejection_reconciles now later reason m =
    Rejection-at now later reason m.state m.history m.resync_timer
