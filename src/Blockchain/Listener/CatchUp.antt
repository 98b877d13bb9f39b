-- ===== src/Blockchain/Listener/CatchUp.antt =====
-- src/core/blockchain/event_listener.ts: `catchUp` ends, and accounts for every ledger.
use iot_billing_backend.Common.{ℕ, ◌+◌, ◌/◌, ◌≤◌, ◌<◌, ◌≡◌, ◌⊎◌, refl, ap, true, some, min, arith}
use iot_billing_backend.Blockchain.Listener.{
  Synchronizer, finished, failed, start, max_gap, catch_up,
}
use iot_billing_backend.Blockchain.Listener.Tasks.{running}
use iot_billing_backend.Blockchain.Listener.Sound.{
  restart, done_times, Near, Accounts, Before, Sound, next_batch-Sound,
}

-- Where nothing is waited for, the call has ended.
unfoldable pub Ended : Synchronizer → Type 0
Ended s =
    ((s.stage ≡ finished)
      × (s.last_synced_ledger ≡ s.target_ledger)
      × (s.persisted ≡ some s.target_ledger))
    ⊎ (s.stage ≡ failed)

module _ (concurrency starting_ledger : ℕ) (s : Synchronizer) where
  pub started-Sound :
      (to_ledger : ℕ)
      → 1 ≤ concurrency
      → s.last_synced_ledger < to_ledger
      → restart starting_ledger s ≡ s.last_synced_ledger
      → Sound concurrency starting_ledger s.last_synced_ledger
          (λ k. done_times k s)
          (catch_up concurrency s.last_synced_ledger to_ledger s)
  unfolding catch_up Before Near Accounts restart start running
  started-Sound to_ledger some_at_once ahead fresh =
      let begun = record s {
        target_ledger = min to_ledger (s.last_synced_ledger + max_gap);
        in_progress = true;
      } in
      next_batch-Sound concurrency starting_ledger s.last_synced_ledger (λ k. done_times k s)
        some_at_once (s.last_synced_ledger + 1) begun (omega arith)
        (
          (λ more. refl),
          (λ over. absurd (omega (arith, over, ahead))),
          omega arith,
          (omega (arith, fresh), ap (λ n. n / 64) fresh),
          λ k. ground arith,
        )
