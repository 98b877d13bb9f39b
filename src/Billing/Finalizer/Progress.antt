-- ===== src/Billing/Finalizer/Progress.antt =====
-- How many turns a call of `finalizeBillingCycle` needs.
use iot_billing_backend.Common.{
  ℕ, zero, suc, ◌+◌, ◌≤◌, ◌≡◌, ◌≢◌, refl, true, false, none, some, List, [], ◌∷◌, if◌then◌else◌,
  get_elem?, arith, Option-cases, inl, inr, ◌==◌, get_elem?-set_self, get_elem?-set_ne, Bool-cases,
  ◌-◌, ==_iff,
}
use iot_billing_backend.Billing.Finalizer.{Call, World, Settled}
use iot_billing_backend.Billing.Finalizer.Steps.{
  Phase, called, has_row, has_won, has_fresh, has_computed, ended, resume, Caller, System, turn,
  run,
}
use iot_billing_backend.Billing.Finalizer.Race.{begin}

-- How many turns a call can still use.
abbrev remaining : Phase → ℕ
remaining called = 5
remaining (has_row r) = 4
remaining (has_won v b) = 3
remaining (has_fresh v b) = 2
remaining (has_computed v) = 1
remaining (ended r) = 0

resume-remaining : (c : Call) (p : Phase) (w : World) → remaining (resume c p w).0 ≤ remaining p - 1
unfolding resume
resume-remaining c called w = omega arith
resume-remaining c (has_row none) w = ground arith
resume-remaining c (has_row (some r)) w = ground arith
resume-remaining c (has_won v true) w = ground arith
resume-remaining c (has_won v false) w = ground arith
resume-remaining c (has_fresh v true) w = ground arith
resume-remaining c (has_fresh v false) w = ground arith
resume-remaining c (has_computed v) w = ground arith
resume-remaining c (ended r) w = omega arith

-- How many turns a schedule gives to call `i`.
abbrev pub turns : ℕ → List ℕ → ℕ
turns i [] = 0
turns i (j ∷ js) = (if j == i then 1 else 0) + turns i js

-- What is known of call `i`: it is there, with at most `n` turns to go.
abbrev Within : ℕ → Call → ℕ → System → Type 0
Within i c n y =
    (p : Phase) × (get_elem? y.callers i ≡ some (record { call = c; phase = p }))
    × (remaining p ≤ n)

turn_self :
    (i : ℕ) (k : Caller) (y : System)
    → get_elem? y.callers i ≡ some k
    → get_elem? (turn i y).callers i ≡ some (record k { phase = (resume k.call k.phase y.world).0 })
unfolding turn
turn_self i k y e = rw (e, turn) (get_elem?-set_self y.callers i _ e)

turn_other : (i j : ℕ) (y : System) → j ≢ i → get_elem? (turn j y).callers i ≡ get_elem? y.callers i
unfolding turn
turn_other i j y ne = elim (Option-cases (get_elem? y.callers j)) [
  | inl e ↦ rw (e, turn) refl
  | inr (k, e) ↦ rw (e, turn) (get_elem?-set_ne y.callers j i _ ne)
]

turn-Within :
    (i j : ℕ) (c : Call) (n : ℕ) (y : System)
    → Within i c n y
    → Within i c (n - (if j == i then 1 else 0)) (turn j y)
turn-Within i j c n y (p, e, h) = elim (Bool-cases (j == i)) [
  | inl same ↦ (
    (resume c p y.world).0,
    rw ((==_iff j i).0 same) (turn_self i _ y e),
    rw same (omega (arith, resume-remaining c p y.world)),
  )
  | inr other ↦ (p, rw (turn_other i j y (ground arith)) e, rw other (omega arith))
]

run-Within :
    (i : ℕ) (c : Call) (n : ℕ) (schedule : List ℕ) (y : System)
    → Within i c n y
    → Within i c (n - turns i schedule) (run schedule y)
unfolding run
run-Within i c n [] y (p, e, h) = (p, e, omega arith)
run-Within i c n (j ∷ schedule) y h =
    let (p, e, l) =
      run-Within i c (n - (if j == i then 1 else 0)) schedule (turn j y)
        (turn-Within i j c n y h) in
    (p, e, omega arith)

ended_of_remaining : (p : Phase) → remaining p ≤ 0 → (r : Settled) × (p ≡ ended r)
ended_of_remaining (ended r) h = (r, refl)
ended_of_remaining called h = absurd (omega arith)
ended_of_remaining (has_row r) h = absurd (omega arith)
ended_of_remaining (has_won v b) h = absurd (omega arith)
ended_of_remaining (has_fresh v b) h = absurd (omega arith)
ended_of_remaining (has_computed v) h = absurd (omega arith)

begun :
    (i : ℕ) (c : Call) (calls : List Call) (w : World)
    → get_elem? calls i ≡ some c
    → get_elem? (begin calls w).callers i ≡ some (record { call = c; phase = called })
begun i c [] w e = cc
begun zero c (x ∷ calls) w e = cc
begun (suc i) c (x ∷ calls) w e = begun i c calls w e

-- Five turns are enough for a call to end, whatever the other calls do between them.
pub call_ends :
    (i : ℕ) (c : Call) (calls : List Call) (w : World) (schedule : List ℕ)
    → get_elem? calls i ≡ some c
    → 5 ≤ turns i schedule
    → (r : Settled) × (get_elem? (run schedule (begin calls w)).callers i
        ≡ some (record { call = c; phase = ended r }))
call_ends i c calls w schedule e h =
    let (p, at, l) =
      run-Within i c 5 schedule (begin calls w) (called, begun i c calls w e, omega arith) in
    let (r, is_ended) = ended_of_remaining p (omega arith) in (r, rw (← is_ended) at)
