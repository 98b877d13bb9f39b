-- ===== src/Billing/Finalizer/Race.antt =====
-- Concurrent finalizations of src/billing/finalizer.ts: whatever the schedule, a cycle is charged
-- at most once.
use iot_billing_backend.Common.{
  ℕ, ◌+◌, ◌≤◌, ◌≡◌, refl, String, Bool, true, false, Option, none, some, List, map, [], ◌∷◌,
  if◌then◌else◌, get_elem?, sum_by, sum_by-set, arith, str_eq, eq_iff, Option-cases, inl, inr,
}
use iot_billing_backend.Common.Dict.{get}
use iot_billing_backend.Billing.StateMachine.{opened, finalizing, finalized, assert_transition}
use iot_billing_backend.Billing.Store.{Cycle, BillingCycleRow, Store, apply_transition}
use iot_billing_backend.Billing.Store.Laws.{
  apply_transition_iff, get-apply_transition, record_finalization_lem,
}
use iot_billing_backend.Billing.Finalizer.{Call, World, key_of, close_cycle}
use iot_billing_backend.Billing.Finalizer.Steps.{
  Phase, called, has_row, has_won, has_fresh, has_computed, ended, resume, resume_row, resume_won,
  resume_fresh, resume_computed, Caller, System, turn, run,
}

-- How often a cycle has been charged.
abbrev pub charged : String → List String → ℕ
charged id [] = 0
charged id (j ∷ js) = (if str_eq j id then 1 else 0) + charged id js

-- One where the cycle can still be taken for finalization.
abbrev pub room : Option Cycle → ℕ
room none = 1
room (some c) = elim c.state [ opened ↦ 1 | _ ↦ 0 ]

-- One where the call has won the cycle and has not run its computation.
abbrev ticket : Phase → ℕ
ticket (has_won v true) = 1
ticket (has_fresh v true) = 1
ticket _ = 0

abbrev ticket_for : String → Caller → ℕ
ticket_for id c = if str_eq c.call.cycle_id id then ticket c.phase else 0

abbrev world_weight : String → World → ℕ
world_weight id w = charged id w.charges + room (get id w.store.cycles)

-- Charges, tickets and room of one cycle.
abbrev weight : String → System → ℕ
weight id y = sum_by (ticket_for id) y.callers + world_weight id y.world

-- Taking a cycle for finalization uses its room.
room-take :
    (id : String) (s : Store) (j : String) (v : ℕ)
    → let (s', won) = apply_transition s j opened finalizing v in
      (if won then (if str_eq j id then 1 else 0) else 0) + room (get id s'.cycles)
      ≤ room (get id s.cycles)
room-take id s j v = ground (
  arith,
  get-apply_transition s j id opened finalizing v,
  apply_transition_iff s j opened finalizing v,
  eq_iff j id,
)

-- Closing a cycle gives no room.
room-close :
    (id : String) (s : Store) (j : String) (v : ℕ)
    → room (get id (apply_transition s j finalizing finalized v).0.cycles) ≤ room (get id s.cycles)
room-close id s j v = ground (
  arith,
  get-apply_transition s j id finalizing finalized v,
  apply_transition_iff s j finalizing finalized v,
  eq_iff j id,
)

abbrev Falls : String → Call → Phase → World → Phase × World → Type 0
Falls id c p w (p', w') =
    (if str_eq c.cycle_id id then ticket p' else 0) + world_weight id w'
    ≤ (if str_eq c.cycle_id id then ticket p else 0) + world_weight id w

resume_row-Falls :
    (id : String) (c : Call) (r : Option BillingCycleRow) (w : World)
    → Falls id c (has_row r) w (resume_row c r w)
unfolding resume_row assert_transition
resume_row-Falls id c none w = ground arith
resume_row-Falls id c (some row) w =
    ground (arith, room-take id w.store c.cycle_id row.lock_version)

resume_won-Falls :
    (id : String) (c : Call) (v : ℕ) (b : Bool) (w : World)
    → Falls id c (has_won v b) w (resume_won c v b w)
unfolding resume_won
resume_won-Falls id c v false w = ground arith
resume_won-Falls id c v true w =
    ground (arith, record_finalization_lem w.store c.cycle_id (key_of c) (key_of c))

resume_fresh-Falls :
    (id : String) (c : Call) (v : ℕ) (b : Bool) (w : World)
    → Falls id c (has_fresh v b) w (resume_fresh c v b w)
unfolding resume_fresh
resume_fresh-Falls id c v false w = ground arith
resume_fresh-Falls id c v true w = ground arith

resume_computed-Falls :
    (id : String) (c : Call) (v : ℕ) (w : World)
    → Falls id c (has_computed v) w (resume_computed c v w)
unfolding resume_computed close_cycle assert_transition
resume_computed-Falls id c v w = ground (arith, room-close id w.store c.cycle_id (v + 1))

resume-Falls : (id : String) (c : Call) (p : Phase) (w : World) → Falls id c p w (resume c p w)
unfolding resume
resume-Falls id c called w = omega arith
resume-Falls id c (has_row r) w = resume_row-Falls id c r w
resume-Falls id c (has_won v b) w = resume_won-Falls id c v b w
resume-Falls id c (has_fresh v b) w = resume_fresh-Falls id c v b w
resume-Falls id c (has_computed v) w = resume_computed-Falls id c v w
resume-Falls id c (ended r) w = omega arith

turn-weight : (id : String) (i : ℕ) (y : System) → weight id (turn i y) ≤ weight id y
unfolding turn
turn-weight id i y = elim (Option-cases (get_elem? y.callers i)) [
  | inl e ↦ rw (e, turn) (omega arith)
  | inr (c, e) ↦
      rw (e, turn)
        (omega (
          arith,
          resume-Falls id c.call c.phase y.world,
          sum_by-set (ticket_for id) y.callers i
              (record c { phase = (resume c.call c.phase y.world).0 }) e,
        ))
]

-- A taken cycle stays taken.
resume-room :
    (id : String) (c : Call) (p : Phase) (w : World)
    → room (get id (resume c p w).1.store.cycles) ≤ room (get id w.store.cycles)
unfolding resume close_cycle assert_transition
resume-room id c called w = omega arith
resume-room id c (has_row none) w = omega arith
resume-room id c (has_row (some row)) w =
    ground (arith, room-take id w.store c.cycle_id row.lock_version)
resume-room id c (has_won v true) w =
    ground (arith, record_finalization_lem w.store c.cycle_id (key_of c) (key_of c))
resume-room id c (has_won v false) w = omega arith
resume-room id c (has_fresh v true) w = ground arith
resume-room id c (has_fresh v false) w = omega arith
resume-room id c (has_computed v) w = room-close id w.store c.cycle_id (v + 1)
resume-room id c (ended r) w = omega arith

pub turn-room :
    (id : String) (i : ℕ) (y : System)
    → room (get id (turn i y).world.store.cycles) ≤ room (get id y.world.store.cycles)
unfolding turn
turn-room id i y = elim (Option-cases (get_elem? y.callers i)) [
  | inl e ↦ rw (e, turn) (omega arith)
  | inr (c, e) ↦ rw (e, turn) (resume-room id c.call c.phase y.world)
]

run-weight :
    (id : String) (schedule : List ℕ) (y : System) → weight id (run schedule y) ≤ weight id y
unfolding run
run-weight id [] y = omega arith
run-weight id (i ∷ schedule) y =
    omega (arith, run-weight id schedule (turn i y), turn-weight id i y)

-- A system of calls none of which has begun.
abbrev pub begin : List Call → World → System
begin calls w = record { callers = map (λ c. record { call = c; phase = called }) calls; world = w }

no_tickets :
    (id : String) (calls : List Call) (w : World)
    → sum_by (ticket_for id) (begin calls w).callers ≡ 0
no_tickets id [] w = refl
no_tickets id (c ∷ calls) w = ground (arith, no_tickets id calls w)

-- However many calls run, and in whatever order they take their turns, a cycle that can still be
-- taken (it is OPEN or missing) is charged at most once more, and any other cycle never again.
pub charged_at_most_once :
    (id : String) (calls : List Call) (w : World) (schedule : List ℕ)
    → charged id (run schedule (begin calls w)).world.charges
      ≤ charged id w.charges + room (get id w.store.cycles)
charged_at_most_once id calls w schedule =
    omega (arith, run-weight id schedule (begin calls w), no_tickets id calls w)
