-- ===== src/Blockchain/Listener/Tests.antt =====
-- src/core/blockchain/event_listener.ts: a call of `catchUp` from ledger 100 to 103, two at once.
use iot_billing_backend.Common.{◌+◌, ◌≤◌, ◌<◌, ◌≡◌, refl, true, false, some, List, [], ◌∷◌, arith}
use iot_billing_backend.Blockchain.Listener.{
  Synchronizer, idle, finished, start, next_batch, catch_up, new_tasks, attempt_of, drop_task,
  retry_task, batch_done, with_tasks, settle, written, Event, settles, writes, handle_at, handle,
  handle_all,
}
use iot_billing_backend.Blockchain.Listener.Sound.{restart}
use iot_billing_backend.Blockchain.Listener.Checkpoints.{restart_bound}

abbrev started : Synchronizer
started = record {
  last_synced_ledger = 100;
  target_ledger = 0;
  in_progress = false;
  error_count = 0;
  persisted = some 100;
  processed = [];
  skipped = [];
  stage = idle;
}

-- Ledger 102 comes first, 101 is given up after three attempts, and 103 comes at once.
abbrev events : List Event
events =
    settles 101 false
    ∷ settles 102 true
    ∷ settles 101 false
    ∷ settles 101 false
    ∷ settles 103 true
    ∷ writes true
    ∷ []

abbrev ended : Synchronizer
ended = handle_all 2 events (catch_up 2 100 103 started)

ended_test :
    (ended.processed ≡ 102 ∷ 103 ∷ []) × (ended.skipped ≡ 101 ∷ []) × (ended.stage ≡ finished)
unfolding handle_all handle handle_at settle written with_tasks batch_done retry_task drop_task
    attempt_of catch_up next_batch new_tasks
ended_test = (refl, refl, refl)

started_there : restart 7 started ≡ 100
unfolding restart start
started_there = refl

restart_bound_example :
    (restart 7 ended ≤ ended.last_synced_ledger)
    × (ended.last_synced_ledger < restart 7 ended + 64 + 2)
restart_bound_example =
    restart_bound 2 7 103 events started (omega arith) (omega arith) started_there
