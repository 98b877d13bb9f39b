-- ===== src/Blockchain/Listener.antt =====
-- src/core/blockchain/event_listener.ts: `LedgerEventSynchronizer`, which follows the chain's
-- ledgers and checkpoints how far it has come. A call of `catchUp` is cut at its `await`s: the
-- attempts of a batch settle in any order, and so does the write of a checkpoint.
pub mod Tasks
pub mod Sound
pub mod Work
pub mod Waiting
pub mod Retries
pub mod CatchUp
pub mod Checkpoints
mod Tests
use iot_billing_backend.Common.{
  ℕ, zero, suc, ◌+◌, ◌-◌, ◌/◌, Bool, true, false, ◌||◌, Option, none, some, List, [], ◌∷◌, ◌++◌,
  ltb, leb, ◌==◌, min, if◌then◌else◌,
}

-- `MAX_GAP`, `CHECKPOINT_INTERVAL` and `MAX_RETRIES`
abbrev pub max_gap : ℕ
max_gap = 172800

abbrev pub checkpoint_interval : ℕ
checkpoint_interval = 64

abbrev pub max_retries : ℕ
max_retries = 3

-- The ledgers of a batch whose attempts go on, each with the attempt that it is at.
abbrev pub Tasks : Type 0
Tasks = List (ℕ × ℕ)

-- Where a call of `catchUp` stands: at the attempts of the batch from one ledger to another, or at
-- the write of a checkpoint, with the ledger after it and the ledger that is written. It has failed
-- where that write rejects.
pub data Stage : Type 0 where
  idle : Stage
  syncing : ℕ → ℕ → Tasks → Stage
  checkpointing : ℕ → ℕ → Stage
  finished : Stage
  failed : Stage

-- `LedgerEventSynchronizer`. `persisted` is the row of the database; `processed` lists the ledgers
-- whose processing ended, and `skipped` those that were given up, each in the order of their ends.
pub record Synchronizer : Type 0 where
  pub last_synced_ledger : ℕ
  pub target_ledger : ℕ
  pub in_progress : Bool
  pub error_count : ℕ
  pub persisted : Option ℕ
  pub processed : List ℕ
  pub skipped : List ℕ
  pub stage : Stage

-- `start`, up to its interval.
unfoldable pub start : ℕ → Synchronizer → Synchronizer
start starting_ledger s = record s {
  last_synced_ledger = elim s.persisted [ none ↦ starting_ledger | some n ↦ n ];
}

-- `getLedgerLag` from the latest sequence number that a poll got.
unfoldable pub get_ledger_lag : Option ℕ → Synchronizer → Option ℕ
get_ledger_lag none s = none
get_ledger_lag (some latest) s = some (latest - s.last_synced_ledger)

-- The first attempts of `n` ledgers from `seq` on.
unfoldable pub new_tasks : ℕ → ℕ → Tasks
new_tasks zero seq = []
new_tasks (suc n) seq = (seq, 0) ∷ new_tasks n (seq + 1)

-- The head of the loop.
unfoldable pub next_batch : ℕ → ℕ → Synchronizer → Synchronizer
next_batch concurrency batch_start s =
    let batch_end = min (batch_start + concurrency - 1) s.target_ledger in
    if leb batch_start s.target_ledger
    then record s {
      stage = syncing batch_start batch_end (new_tasks (batch_end + 1 - batch_start) batch_start);
    }
    else record s { stage = finished; in_progress = false }

-- `catchUp` up to its first `await`.
unfoldable pub catch_up : ℕ → ℕ → ℕ → Synchronizer → Synchronizer
catch_up concurrency from_ledger to_ledger s =
    next_batch concurrency (from_ledger + 1)
      (record s { target_ledger = min to_ledger (from_ledger + max_gap); in_progress = true })

unfoldable pub attempt_of : ℕ → Tasks → Option ℕ
attempt_of seq [] = none
attempt_of seq ((k, a) ∷ ts) = if k == seq then some a else attempt_of seq ts

unfoldable pub drop_task : ℕ → Tasks → Tasks
drop_task seq [] = []
drop_task seq ((k, a) ∷ ts) = let rest = drop_task seq ts in if k == seq then ts else (k, a) ∷ rest

unfoldable pub retry_task : ℕ → Tasks → Tasks
retry_task seq [] = []
retry_task seq ((k, a) ∷ ts) =
    let rest = retry_task seq ts in if k == seq then (k, a + 1) ∷ ts else (k, a) ∷ rest

-- After `Promise.all`: how far it has come, and whether a checkpoint is due.
unfoldable pub batch_done : ℕ → ℕ → ℕ → Synchronizer → Synchronizer
batch_done concurrency batch_start batch_end s =
    let synced = record s { last_synced_ledger = batch_end } in
    let next = batch_start + concurrency in
    let going_on = next_batch concurrency next synced in
    if ltb ((batch_start - 1) / checkpoint_interval) (batch_end / checkpoint_interval)
      || (batch_end == s.target_ledger)
    then record synced { stage = checkpointing next batch_end }
    else going_on

unfoldable pub with_tasks : ℕ → ℕ → ℕ → Tasks → Synchronizer → Synchronizer
with_tasks concurrency batch_start batch_end [] s = batch_done concurrency batch_start batch_end s
with_tasks concurrency batch_start batch_end (t ∷ ts) s = record s {
  stage = syncing batch_start batch_end (t ∷ ts);
}

-- An attempt settles: the ledger is processed, or tried again after a delay, or given up.
unfoldable pub settle : ℕ → ℕ → ℕ → Tasks → ℕ → Bool → Option ℕ → Synchronizer → Synchronizer
settle concurrency batch_start batch_end ts seq good none s = s
settle concurrency batch_start batch_end ts seq true (some attempt) s =
    with_tasks concurrency batch_start batch_end (drop_task seq ts)
      (record s { processed = s.processed ++ (seq ∷ []) })
settle concurrency batch_start batch_end ts seq false (some attempt) s =
    let given_up =
      with_tasks concurrency batch_start batch_end (drop_task seq ts)
        (record s { skipped = s.skipped ++ (seq ∷ []); error_count = s.error_count + 1 }) in
    if ltb attempt (max_retries - 1)
    then record s { stage = syncing batch_start batch_end (retry_task seq ts) }
    else given_up

-- The write of a checkpoint settles. Where it rejects, `catchUp` throws.
unfoldable pub written : ℕ → ℕ → ℕ → Bool → Synchronizer → Synchronizer
written concurrency next ledger true s =
    next_batch concurrency next (record s { persisted = some ledger })
written concurrency next ledger false s = record s { stage = failed; in_progress = false }

-- What settles: an attempt at a ledger, or the write of a checkpoint, and whether it fulfils.
pub data Event : Type 0 where
  settles : ℕ → Bool → Event
  writes : Bool → Event

unfoldable pub handle_at : ℕ → Event → Stage → Synchronizer → Synchronizer
handle_at concurrency (settles seq good) (syncing batch_start batch_end ts) s =
    settle concurrency batch_start batch_end ts seq good (attempt_of seq ts) s
handle_at concurrency (writes good) (checkpointing next ledger) s =
    written concurrency next ledger good s
handle_at concurrency _ _ s = s

unfoldable pub handle : ℕ → Event → Synchronizer → Synchronizer
handle concurrency e s = handle_at concurrency e s.stage s

unfoldable pub handle_all : ℕ → List Event → Synchronizer → Synchronizer
handle_all concurrency [] s = s
handle_all concurrency (e ∷ es) s = handle_all concurrency es (handle concurrency e s)
