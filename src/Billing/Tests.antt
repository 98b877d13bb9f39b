-- ===== src/Billing/Tests.antt =====
-- Runs of the code of src/billing on concrete cycles.
use iot_billing_backend.Common.{ℕ, ◌≤◌, ◌≡◌, refl, ◌↔◌, true, none, some, List, [], ◌∷◌, arith}
use iot_billing_backend.Common.Dict.{get}
use iot_billing_backend.Billing.StateMachine.{
  opened, finalized, settled, BillingCycleState, state_value, is_billing_cycle_state,
}
use iot_billing_backend.Billing.StateMachine.Chain.{is_billing_cycle_state_iff}
use iot_billing_backend.Billing.Store.{Store, has_key}
use iot_billing_backend.Billing.Finalizer.{
  Call, World, resolved, result, was_finalized, completes, finalize_billing_cycle,
}
use iot_billing_backend.Billing.Finalizer.Steps.{run}
use iot_billing_backend.Billing.Finalizer.Race.{begin, charged, room, charged_at_most_once}
use iot_billing_backend.Billing.Finalizer.Winner.{some_call_wins}
use iot_billing_backend.Billing.Finalizer.Outcome.{finalize_completes}

is_billing_cycle_state_iff_test :
    (is_billing_cycle_state "SETTLED" ≡ true)
    ↔ ((s : BillingCycleState) × (state_value s ≡ "SETTLED"))
is_billing_cycle_state_iff_test = is_billing_cycle_state_iff "SETTLED"

abbrev store : Store
store = record {
  cycles =
      ("may", record { state = opened; lock_version = 1 })
      ∷ ("june", record { state = settled; lock_version = 4 })
      ∷ [];
  idempotency_keys = "k0" ∷ [];
}

abbrev world : World
world = record { store = store; charges = [] }

abbrev first : Call
first = record {
  cycle_id = "may";
  idempotency_key = none;
  minted_key = "k1";
  compute_finalization = completes;
}

abbrev second : Call
second = record first { idempotency_key = some "k2" }

-- The second call reads before the first writes.
abbrev schedule : List ℕ
schedule = 0 ∷ 1 ∷ 1 ∷ 0 ∷ 0 ∷ 1 ∷ 1 ∷ 1 ∷ 0 ∷ 0 ∷ []

charged_at_most_once_example :
    charged "may" (run schedule (begin (first ∷ second ∷ []) world)).world.charges ≤ 1
unfolding get
charged_at_most_once_example = charged_at_most_once "may" (first ∷ second ∷ []) world schedule

some_call_wins_example :
    room (get "may" (run schedule (begin (first ∷ second ∷ []) world)).world.store.cycles) ≡ 0
unfolding get
some_call_wins_example =
    some_call_wins "may" 1 0 first (first ∷ second ∷ []) world schedule refl refl refl (omega arith)

finalize_completes_example :
    let (r, w) = finalize_billing_cycle first world in
    (r ≡ resolved (result "may" was_finalized (some finalized) (some "k1")))
    × (get "may" w.store.cycles ≡ some (record { state = finalized; lock_version = 3 }))
    × (has_key "k1" w.store.idempotency_keys ≡ true)
    × (w.charges ≡ "may" ∷ [])
unfolding get has_key
finalize_completes_example = finalize_completes first 1 world refl refl refl
