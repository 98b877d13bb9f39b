-- ===== src/Billing/Finalizer/Steps.antt =====
-- src/billing/finalizer.ts cut at its `await`s. Between two `await`s a call runs alone, so a
-- schedule is a list of the calls that go on, one stretch at a time.
use iot_billing_backend.Common.{
  ℕ, Bool, true, false, Option, none, some, List, [], ◌∷◌, if◌then◌else◌, get_elem?, set, not,
}
use iot_billing_backend.Common.Result.{ok, throws}
use iot_billing_backend.Billing.StateMachine.{opened, finalizing, state_eq, assert_transition}
use iot_billing_backend.Billing.Store.{
  BillingCycleRow, get_cycle, apply_transition, record_finalization,
}
use iot_billing_backend.Billing.Finalizer.{
  Call, World, Settled, rejected, resolved, result, not_found, not_open, replay, lost, compute,
  close_cycle, key_of,
}

-- What the `await` that a call stands at has given. The number is the lock version that the call
-- read.
pub data Phase : Type 0 where
  called : Phase
  has_row : Option BillingCycleRow → Phase
  has_won : ℕ → Bool → Phase
  has_fresh : ℕ → Bool → Phase
  has_computed : ℕ → Phase
  ended : Settled → Phase

-- On with the row: the guards, then the compare-and-set.
unfoldable pub resume_row : Call → Option BillingCycleRow → World → Phase × World
resume_row c none w = (ended (resolved (result c.cycle_id not_found none none)), w)
resume_row c (some row) w =
    if not (state_eq row.state opened)
    then (ended (resolved (result c.cycle_id not_open (some row.state) none)), w)
    else elim (assert_transition opened finalizing) [
      | throws e ↦ (ended rejected, w)
      | ok u ↦
          let (s', won) = apply_transition w.store c.cycle_id opened finalizing row.lock_version in
          (has_won row.lock_version won, record w { store = s' })
    ]

unfoldable pub resume_won : Call → ℕ → Bool → World → Phase × World
resume_won c v false w = (ended (lost c w), w)
resume_won c v true w =
    let (s', fresh) = record_finalization w.store c.cycle_id (key_of c) in
    (has_fresh v fresh, record w { store = s' })

unfoldable pub resume_fresh : Call → ℕ → Bool → World → Phase × World
resume_fresh c v false w = (ended (replay c), w)
resume_fresh c v true w =
    let (threw, w') = compute c w in (if threw then ended rejected else has_computed v, w')

unfoldable pub resume_computed : Call → ℕ → World → Phase × World
resume_computed c v w = let (settled, w') = close_cycle c v w in (ended settled, w')

-- One stretch of a call.
unfoldable pub resume : Call → Phase → World → Phase × World
unfolding resume_row resume_won resume_fresh resume_computed
resume c called w = (has_row (get_cycle w.store c.cycle_id), w)
resume c (has_row row) w = resume_row c row w
resume c (has_won v won) w = resume_won c v won w
resume c (has_fresh v fresh) w = resume_fresh c v fresh w
resume c (has_computed v) w = resume_computed c v w
resume c (ended settled) w = (ended settled, w)

pub record Caller : Type 0 where
  pub call : Call
  pub phase : Phase

pub record System : Type 0 where
  pub callers : List Caller
  pub world : World

-- The `i`-th call goes on; an index with no call changes nothing.
unfoldable pub turn : ℕ → System → System
turn i y = elim (get_elem? y.callers i) [
  | none ↦ y
  | some c ↦
      let (p, w) = resume c.call c.phase y.world in
      record { callers = set y.callers i (record c { phase = p }); world = w }
]

unfoldable pub run : List ℕ → System → System
run [] y = y
run (i ∷ schedule) y = run schedule (turn i y)
