-- ===== src/Billing/Store.antt =====
-- src/billing/billing_cycle_repository.ts: the in-memory store (here), and its laws and the
-- Postgres store (in the children).
pub mod Laws
pub mod Branches
pub mod Postgres
use iot_billing_backend.Common.{
  ℕ, ◌+◌, String, Bool, true, false, not, ◌||◌, Option, none, some, List, [], ◌∷◌, ◌==◌,
  if◌then◌else◌, str_eq,
}
use iot_billing_backend.Common.Dict.{Dict, get, put}
use iot_billing_backend.Billing.StateMachine.{BillingCycleState, state_eq}

pub record BillingCycleRow : Type 0 where
  pub id : String
  pub state : BillingCycleState
  pub lock_version : ℕ

-- `InMemoryCycle`
pub record Cycle : Type 0 where
  pub state : BillingCycleState
  pub lock_version : ℕ

-- `InMemoryBillingCycleStore`; the `Set` of keys is a list.
pub record Store : Type 0 where
  pub cycles : Dict Cycle
  pub idempotency_keys : List String

-- `Set.prototype.has`
unfoldable pub has_key : String → List String → Bool
has_key k [] = false
has_key k (j ∷ ks) = str_eq j k || has_key k ks

unfoldable pub seed : Store → String → BillingCycleState → ℕ → Store
seed s id state lock_version = record s {
  cycles = put id (record { state = state; lock_version = lock_version }) s.cycles;
}

unfoldable pub get_cycle : Store → String → Option BillingCycleRow
get_cycle s id = elim (get id s.cycles) [
  | none ↦ none
  | some c ↦ some (record { id = id; state = c.state; lock_version = c.lock_version })
]

-- The body of `applyTransition` once the cycle is found.
unfoldable pub compare_and_set :
    Store → String → Cycle → BillingCycleState → BillingCycleState → ℕ → Store × Bool
compare_and_set s id cycle from to expected =
    if not (state_eq cycle.state from) || not (cycle.lock_version == expected)
    then (s, false)
    else (
      record s {
        cycles = put id (record { state = to; lock_version = cycle.lock_version + 1 }) s.cycles;
      },
      true,
    )

unfoldable pub apply_transition :
    Store → String → BillingCycleState → BillingCycleState → ℕ → Store × Bool
unfolding compare_and_set
apply_transition s id from to expected = elim (get id s.cycles) [
  | none ↦ (s, false)
  | some cycle ↦ compare_and_set s id cycle from to expected
]

unfoldable pub record_finalization : Store → String → String → Store × Bool
record_finalization s cycle_id key =
    if has_key key s.idempotency_keys
    then (s, false)
    else (record s { idempotency_keys = key ∷ s.idempotency_keys }, true)
