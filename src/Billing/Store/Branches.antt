-- ===== src/Billing/Store/Branches.antt =====
-- src/billing/billing_cycle_repository.ts: the in-memory store's answers, branch by branch.
use iot_billing_backend.Common.{
  ℕ, ◌+◌, ◌≡◌, refl, String, true, false, ◌&&◌, none, some, ◌==◌, arith,
}
use iot_billing_backend.Common.Dict.{get, put}
use iot_billing_backend.Billing.StateMachine.{BillingCycleState, state_eq}
use iot_billing_backend.Billing.Store.{Cycle, Store, get_cycle, apply_transition, compare_and_set}

pub memory_get_cycle_absent :
    (s : Store) (id : String) → get id s.cycles ≡ none → get_cycle s id ≡ none
unfolding get_cycle
memory_get_cycle_absent s id e = rw (e, get_cycle) refl

pub memory_get_cycle_found :
    (s : Store) (id : String) (c : Cycle)
    → get id s.cycles ≡ some c
    → get_cycle s id ≡ some (record { id = id; state = c.state; lock_version = c.lock_version })
unfolding get_cycle
memory_get_cycle_found s id c e = rw (e, get_cycle) refl

pub memory_apply_absent :
    (s : Store) (id : String) (from to : BillingCycleState) (v : ℕ)
    → get id s.cycles ≡ none
    → apply_transition s id from to v ≡ (s, false)
unfolding apply_transition
memory_apply_absent s id from to v e = rw (e, apply_transition) refl

pub memory_apply_missed :
    (s : Store) (id : String) (from to : BillingCycleState) (v : ℕ) (c : Cycle)
    → get id s.cycles ≡ some c
    → (state_eq c.state from && (c.lock_version == v)) ≡ false
    → apply_transition s id from to v ≡ (s, false)
unfolding apply_transition compare_and_set
memory_apply_missed s id from to v c e missed = ground (arith, e, missed)

pub memory_apply_met :
    (s : Store) (id : String) (from to : BillingCycleState) (v : ℕ) (c : Cycle)
    → get id s.cycles ≡ some c
    → (state_eq c.state from && (c.lock_version == v)) ≡ true
    → apply_transition s id from to v
      ≡ (record s { cycles = put id (record { state = to; lock_version = v + 1 }) s.cycles }, true)
unfolding apply_transition compare_and_set
memory_apply_met s id from to v c e met = ground (arith, e, met)
