-- ===== src/Blockchain/Listener/Checkpoints.antt =====
-- src/core/blockchain/event_listener.ts: how much a crash can make the synchronizer repeat.
use iot_billing_backend.Common.{ℕ, ◌+◌, ◌≤◌, ◌<◌, ◌≡◌, List, arith}
use iot_billing_backend.Blockchain.Listener.{
  Synchronizer, Stage, idle, syncing, checkpointing, finished, failed, Event, handle_all, catch_up,
}
use iot_billing_backend.Blockchain.Listener.Sound.{
  restart, done_times, Near, Behind, InBatch, SoundAt, handle_all-Sound,
}
use iot_billing_backend.Blockchain.Listener.CatchUp.{started-Sound}

SoundAt-Behind :
    (concurrency starting_ledger from : ℕ) (old : ℕ → ℕ) (st : Stage) (s : Synchronizer)
    → SoundAt concurrency starting_ledger from old st s
    → Behind concurrency starting_ledger from old s
unfolding SoundAt InBatch Near Behind
SoundAt-Behind c starting from old idle s h = h
SoundAt-Behind c starting from old (syncing b be ts) s
      (last, within, ends, after, (le, near), accounts) =
    (le, omega (arith, le, near))
SoundAt-Behind c starting from old (checkpointing next ledger) s
      (last, ends, positive, after, behind, accounts) =
    behind
SoundAt-Behind c starting from old finished s (still, last, row, (le, near), accounts) =
    (le, omega (arith, le, near))
SoundAt-Behind c starting from old failed s (still, behind, accounts) = behind

-- During a call of `catchUp`, and after it, a crash makes the synchronizer repeat fewer ledgers
-- than 64 and a batch: with a positive concurrency, for a synchronizer that was just started or
-- whose row is its last synced ledger, whatever attempts and checkpoints have settled, failed
-- checkpoints included, a restart would go on from a ledger that is at most the last synced one
-- and less than 64 and the concurrency below it.
pub restart_bound :
    (concurrency starting_ledger to_ledger : ℕ) (es : List Event) (s : Synchronizer)
    → 1 ≤ concurrency
    → s.last_synced_ledger < to_ledger
    → restart starting_ledger s ≡ s.last_synced_ledger
    → let r = handle_all concurrency es (catch_up concurrency s.last_synced_ledger to_ledger s) in
      (restart starting_ledger r ≤ r.last_synced_ledger)
      × (r.last_synced_ledger < restart starting_ledger r + 64 + concurrency)
unfolding Behind
restart_bound concurrency starting_ledger to_ledger es s some_at_once ahead fresh =
    let from = s.last_synced_ledger in
    let old : ℕ → ℕ = λ k. done_times k s in
    let begun = catch_up concurrency from to_ledger s in
    let r = handle_all concurrency es begun in
    let sound = started-Sound concurrency starting_ledger s to_ledger some_at_once ahead fresh in
    SoundAt-Behind concurrency starting_ledger from old r.stage r
      (handle_all-Sound concurrency starting_ledger from old some_at_once es begun sound)
