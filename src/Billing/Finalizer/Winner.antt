-- ===== src/Billing/Finalizer/Winner.antt =====
-- Some call takes an OPEN cycle: a race of `finalizeBillingCycle` cannot have losers only.
use iot_billing_backend.Common.{
  ℕ, ◌+◌, ◌≤◌, ◌≡◌, refl, String, Bool, true, false, none, some, List, [], ◌∷◌, get_elem?, set,
  arith, str_eq, eq_iff, Option-cases, inl, inr, ◌⊎◌, ◌↔◌, ◌∙◌, sym, Bool-cases, All, All-set,
  All-get_elem?,
}
use iot_billing_backend.Common.Dict.{get}
use mathlib.Core.Path.{subst}
use iot_billing_backend.Billing.StateMachine.{
  BillingCycleState, opened, finalizing, finalized, assert_transition,
}
use iot_billing_backend.Billing.Store.{
  Store, BillingCycleRow, get_cycle, apply_transition, record_finalization,
}
use iot_billing_backend.Billing.Store.Laws.{
  apply_transition_iff, get-apply_transition, record_finalization_lem,
}
use iot_billing_backend.Billing.Finalizer.{Call, World, Settled, key_of, close_cycle}
use iot_billing_backend.Billing.Finalizer.Steps.{
  Phase, called, has_row, has_won, has_fresh, has_computed, ended, resume, Caller, System, turn,
  run,
}
use iot_billing_backend.Billing.Finalizer.Race.{begin, room, turn-room}
use iot_billing_backend.Billing.Finalizer.Progress.{call_ends, turns}

-- A call that has at most read the cycle, OPEN at lock version `v`.
abbrev Reads : ℕ → Phase → Type 0
Reads v called = Unit
Reads v (has_row (some row)) = (row.state ≡ opened) × (row.lock_version ≡ v)
Reads v _ = ⊥

abbrev IsOpenAt : String → ℕ → World → Type 0
IsOpenAt id v w = get id w.store.cycles ≡ some (record { state = opened; lock_version = v })

abbrev IsTaken : String → World → Type 0
IsTaken id w = room (get id w.store.cycles) ≡ 0

-- Another cycle's transition leaves this one alone.
get-other :
    (id j : String) (s : Store) (from to : BillingCycleState) (v : ℕ)
    → str_eq j id ≡ false
    → get id (apply_transition s j from to v).0.cycles ≡ get id s.cycles
get-other id j s from to v ne = ground (arith, get-apply_transition s j id from to v)

get-record_finalization :
    (id : String) (c : Call) (s : Store)
    → get id (record_finalization s c.cycle_id (key_of c)).0.cycles ≡ get id s.cycles
get-record_finalization id c s =
    rw (record_finalization_lem s c.cycle_id (key_of c) (key_of c)).2 refl

-- A call for another cycle leaves this one alone.
resume-other :
    (id : String) (c : Call) (p : Phase) (w : World)
    → str_eq c.cycle_id id ≡ false
    → get id (resume c p w).1.store.cycles ≡ get id w.store.cycles
unfolding resume close_cycle assert_transition
resume-other id c called w ne = refl
resume-other id c (has_row none) w ne = refl
resume-other id c (has_row (some row)) w ne =
    ground (arith, get-other id c.cycle_id w.store opened finalizing row.lock_version ne)
resume-other id c (has_won v true) w ne = get-record_finalization id c w.store
resume-other id c (has_won v false) w ne = refl
resume-other id c (has_fresh v true) w ne = ground arith
resume-other id c (has_fresh v false) w ne = refl
resume-other id c (has_computed v) w ne =
    get-other id c.cycle_id w.store finalizing finalized (v + 1) ne
resume-other id c (ended r) w ne = refl

-- The compare-and-set of a call that read the cycle as it is takes it.
take-IsTaken :
    (c : Call) (row : BillingCycleRow) (w : World)
    → IsOpenAt c.cycle_id row.lock_version w
    → row.state ≡ opened
    → IsTaken c.cycle_id (resume c (has_row (some row)) w).1
unfolding resume assert_transition
take-IsTaken c row w is_open o = ground (
  arith,
  get-apply_transition w.store c.cycle_id c.cycle_id opened finalizing row.lock_version,
  (apply_transition_iff w.store c.cycle_id opened finalizing row.lock_version).1 is_open,
  eq_iff c.cycle_id c.cycle_id,
)

abbrev Stays : String → ℕ → Phase × World → Type 0
Stays id v (p', w') = (IsOpenAt id v w' × Reads v p') ⊎ IsTaken id w'

get_cycle-open :
    (id : String) (v : ℕ) (w : World)
    → IsOpenAt id v w
    → get_cycle w.store id ≡ some (record { id = id; state = opened; lock_version = v })
unfolding get_cycle
get_cycle-open id v w is_open = rw (is_open, get_cycle) refl

-- A call for this cycle reads it, and then takes it.
resume-Stays :
    (c : Call) (v : ℕ) (p : Phase) (w : World)
    → IsOpenAt c.cycle_id v w
    → Reads v p
    → Stays c.cycle_id v (resume c p w)
unfolding resume
resume-Stays c v called w is_open h = inl (
  is_open,
  subst (λ r. Reads v (has_row r)) (sym (get_cycle-open c.cycle_id v w is_open)) (refl, refl),
)
resume-Stays c v (has_row none) w is_open h = absurd h
resume-Stays c v (has_row (some row)) w is_open h = inr (take-IsTaken c row w (rw h.1 is_open) h.0)
resume-Stays c v (has_won n b) w is_open h = absurd h
resume-Stays c v (has_fresh n b) w is_open h = absurd h
resume-Stays c v (has_computed n) w is_open h = absurd h
resume-Stays c v (ended r) w is_open h = absurd h

-- Every call for the cycle has at most read it.
abbrev Waits : String → ℕ → Caller → Type 0
Waits id v k = k.call.cycle_id ≡ id → Reads v k.phase

abbrev Undecided : String → ℕ → System → Type 0
Undecided id v y = (IsOpenAt id v y.world × All (Waits id v) y.callers) ⊎ IsTaken id y.world

caller-Undecided :
    (id : String) (v i : ℕ) (y : System) (k : Caller)
    → IsOpenAt id v y.world
    → All (Waits id v) y.callers
    → Waits id v k
    → let (p', w') = resume k.call k.phase y.world in
      Undecided id v (record { callers = set y.callers i (record k { phase = p' }); world = w' })
caller-Undecided id v i y k is_open waits h = elim (Bool-cases (str_eq k.call.cycle_id id)) [
  | inl same ↦
      let e = (eq_iff k.call.cycle_id id).0 same in
      elim (resume-Stays k.call v k.phase y.world
        (subst (λ j. IsOpenAt j v y.world) (sym e) is_open) (h e)) [
          | inl (still, reads) ↦ inl (
            subst (λ j. IsOpenAt j v (resume k.call k.phase y.world).1) e still,
            All-set (Waits id v) y.callers i _ waits (λ _. reads),
          )
          | inr taken ↦ inr (subst (λ j. IsTaken j (resume k.call k.phase y.world).1) e taken)
        ]
  | inr other ↦ inl (
    resume-other id k.call k.phase y.world other ∙ is_open,
    All-set (Waits id v) y.callers i _ waits
        (λ e. absurd (differs (eq_iff k.call.cycle_id id) e other)),
  )
]
  where
    differs : {b : Bool} {P : Type 0} → (b ≡ true) ↔ P → P → b ≡ false → ⊥
    differs iff e no_match = cc (iff.1 e)

turn-Undecided : (id : String) (v i : ℕ) (y : System) → Undecided id v y → Undecided id v (turn i y)
unfolding turn
turn-Undecided id v i y (inr taken) = inr (omega (arith, turn-room id i y))
turn-Undecided id v i y (inl (is_open, waits)) = elim (Option-cases (get_elem? y.callers i)) [
  | inl e ↦ rw (e, turn) (inl (is_open, waits))
  | inr (k, e) ↦
      rw (e, turn)
        (caller-Undecided id v i y k is_open waits (All-get_elem? (Waits id v) y.callers i waits e))
]

run-Undecided :
    (id : String) (v : ℕ) (schedule : List ℕ) (y : System)
    → Undecided id v y
    → Undecided id v (run schedule y)
unfolding run
run-Undecided id v [] y h = h
run-Undecided id v (i ∷ schedule) y h =
    run-Undecided id v schedule (turn i y) (turn-Undecided id v i y h)

begin-Waits :
    (id : String) (v : ℕ) (calls : List Call) (w : World) → All (Waits id v) (begin calls w).callers
begin-Waits id v [] w = tt
begin-Waits id v (c ∷ calls) w = (λ e. tt, begin-Waits id v calls w)

ended-IsTaken :
    (id : String) (v i : ℕ) (c : Call) (r : Settled) (y : System)
    → Undecided id v y
    → c.cycle_id ≡ id
    → get_elem? y.callers i ≡ some (record { call = c; phase = ended r })
    → IsTaken id y.world
ended-IsTaken id v i c r y (inr taken) same e = taken
ended-IsTaken id v i c r y (inl (is_open, waits)) same e =
    absurd (All-get_elem? (Waits id v) y.callers i waits e same)

-- A cycle that is OPEN when a set of calls begins is no longer OPEN once one call for it has had
-- its five turns, whatever the other calls do: not every call can lose the race.
pub some_call_wins :
    (id : String) (v i : ℕ) (c : Call) (calls : List Call) (w : World) (schedule : List ℕ)
    → get id w.store.cycles ≡ some (record { state = opened; lock_version = v })
    → get_elem? calls i ≡ some c
    → c.cycle_id ≡ id
    → 5 ≤ turns i schedule
    → room (get id (run schedule (begin calls w)).world.store.cycles) ≡ 0
some_call_wins id v i c calls w schedule is_open e same enough =
    let (r, at) = call_ends i c calls w schedule e enough in
    ended-IsTaken id v i c r (run schedule (begin calls w))
      (run-Undecided id v schedule (begin calls w) (inl (is_open, begin-Waits id v calls w))) same
      at
