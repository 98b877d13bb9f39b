-- ===== src/Billing/Finalizer.antt =====
-- src/billing/finalizer.ts over the in-memory store: `finalize_billing_cycle` is the function run
-- with no one in between, and `resume` the same code cut at its `await`s, for interleavings.
pub mod Steps
pub mod Race
pub mod Progress
pub mod Winner
pub mod Outcome
use iot_billing_backend.Common.{
  ℕ, ◌+◌, String, Bool, true, false, Option, none, some, List, ◌∷◌, if◌then◌else◌, not,
}
use iot_billing_backend.Common.Result.{ok, throws}
use iot_billing_backend.Billing.StateMachine.{
  BillingCycleState, opened, finalizing, finalized, state_eq, assert_transition,
}
use iot_billing_backend.Billing.Store.{
  Store, BillingCycleRow, get_cycle, apply_transition, record_finalization,
}

-- `FinalizationOutcome`; `finalized` is `was_finalized`, as a state has that name.
pub data FinalizationOutcome : Type 0 where
  was_finalized not_found not_open lost_race duplicate_replay : FinalizationOutcome

pub record FinalizationResult : Type 0 where
  pub cycle_id : String
  pub outcome : FinalizationOutcome
  pub finalized : Bool
  pub state : Option BillingCycleState
  pub idempotency_key : Option String

-- What the caller's `computeFinalization` does: it is left out, it completes, or it throws. One that
-- never settles is, in a schedule, a call that gets no turn after it has begun its computation.
pub data Computation : Type 0 where
  left_out completes fails : Computation

-- The arguments of a call, with the value that `uuidv7()` would give to it.
pub record Call : Type 0 where
  pub cycle_id : String
  pub idempotency_key : Option String
  pub minted_key : String
  pub compute_finalization : Computation

-- The store, and the cycles for which a computation was invoked, the latest first.
pub record World : Type 0 where
  pub store : Store
  pub charges : List String

-- How a call ends: it resolves with a result, or it rejects.
pub data Settled : Type 0 where
  resolved : FinalizationResult → Settled
  rejected : Settled

abbrev is_finalized : FinalizationOutcome → Bool
is_finalized was_finalized = true
is_finalized _ = false

-- `result`
abbrev pub result :
    String → FinalizationOutcome → Option BillingCycleState → Option String → FinalizationResult
result cycle_id outcome state key = record {
  cycle_id = cycle_id;
  outcome = outcome;
  finalized = is_finalized outcome;
  state = state;
  idempotency_key = key;
}

-- `options.idempotencyKey ?? uuidv7()`
abbrev pub key_of : Call → String
key_of c = elim c.idempotency_key [ none ↦ c.minted_key | some k ↦ k ]

-- `latest?.state ?? null`
abbrev latest_state : Option BillingCycleRow → Option BillingCycleState
latest_state none = none
latest_state (some row) = some row.state

-- From the computation to the end, for a caller that read lock version `v`.
pub close_cycle : Call → ℕ → World → Settled × World
close_cycle c v w = elim (assert_transition finalizing finalized) [
  | throws e ↦ (rejected, w)
  | ok u ↦ (
    resolved (result c.cycle_id was_finalized (some finalized) (some (key_of c))),
    record w { store = (apply_transition w.store c.cycle_id finalizing finalized (v + 1)).0 },
  )
]

-- The call of `computeFinalization`: whether it threw, and what it did.
abbrev pub compute : Call → World → Bool × World
compute c w = elim c.compute_finalization [
  | left_out ↦ (false, w)
  | completes ↦ (false, record w { charges = c.cycle_id ∷ w.charges })
  | fails ↦ (true, record w { charges = c.cycle_id ∷ w.charges })
]

compute_and_close : Call → ℕ → World → Settled × World
unfolding close_cycle
compute_and_close c v w =
    let (threw, w') = compute c w in if threw then (rejected, w') else close_cycle c v w'

abbrev pub replay : Call → Settled
replay c = resolved (result c.cycle_id duplicate_replay (some finalizing) (some (key_of c)))

-- After the first transition is won.
gate : Call → ℕ → World → Settled × World
unfolding compute_and_close
gate c v w =
    let (s', fresh) = record_finalization w.store c.cycle_id (key_of c) in
    let w' = record w { store = s' } in
    if not fresh then (replay c, w') else compute_and_close c v w'

abbrev pub lost : Call → World → Settled
lost c w = resolved (result c.cycle_id lost_race (latest_state (get_cycle w.store c.cycle_id)) none)

-- From the row that `getCycle` gave.
try_transition : Call → BillingCycleRow → World → Settled × World
unfolding gate
try_transition c row w = elim (assert_transition opened finalizing) [
  | throws e ↦ (rejected, w)
  | ok u ↦
      let (s', won) = apply_transition w.store c.cycle_id opened finalizing row.lock_version in
      let w' = record w { store = s' } in
      if not won then (lost c w', w') else gate c row.lock_version w'
]

unfoldable pub finalize_billing_cycle : Call → World → Settled × World
unfolding try_transition
finalize_billing_cycle c w = elim (get_cycle w.store c.cycle_id) [
  | none ↦ (resolved (result c.cycle_id not_found none none), w)
  | some row ↦
      if not (state_eq row.state opened)
      then (resolved (result c.cycle_id not_open (some row.state) none), w)
      else try_transition c row w
]
