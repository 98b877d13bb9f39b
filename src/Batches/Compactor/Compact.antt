-- ===== src/Batches/Compactor/Compact.antt =====
-- `compactBatch` of src/ingestion/batchCompactor.ts on every branch.
use iot_billing_backend.Common.{
  ℕ, ◌≡◌, ◌≢◌, refl, String, true, false, none, some, ◌⊎◌, inl, inr, arith, str_eq, eq_iff,
  Option-cases, List, ap, ◌∙◌, if◌then◌else◌,
}
use iot_billing_backend.Common.Result.{ok}
use iot_billing_backend.Batches.Types.{opened, compacting, closed, Batch, Db}
use iot_billing_backend.Batches.LockId.{batch_lock_id}
use iot_billing_backend.Batches.Table.{
  find_batch, get_batch, transition_batch_state, try_acquire_batch_lock, held_by_other,
  release_batch_lock, unlock, update_state,
}
use iot_billing_backend.Batches.Table.Laws.{find-update, find-id, meets_found, updated}
use iot_billing_backend.Batches.Summary.{do_compact}
use iot_billing_backend.Batches.Compactor.{compact_batch, done, skipped}

-- Without the lock, without the batch, or with a batch that is not OPEN, `compactBatch` returns
-- `skipped` and the database is as before, locks included.
pub compact_batch_skips :
    (session : ℕ) (id : String) (db : Db)
    → (held_by_other session (batch_lock_id id) db.locks ≡ true)
      ⊎ (find_batch id db.batches ≡ none)
      ⊎ ((b : Batch) × (find_batch id db.batches ≡ some b) × (b.state ≢ opened))
    → compact_batch session id db ≡ (ok skipped, db)
unfolding compact_batch try_acquire_batch_lock get_batch release_batch_lock unlock
compact_batch_skips session id db h = ground arith

module _ (session : ℕ) (id : String) (db : Db) (b : Batch)
    (found : find_batch id db.batches ≡ some b) (is_open : b.state ≡ opened)
    (is_free : held_by_other session (batch_lock_id id) db.locks ≡ false) where
  -- The batches after both transitions.
  twice_updated : List Batch
  twice_updated = update_state id compacting closed (update_state id opened compacting db.batches)

  find-twice :
      (j : String)
      → find_batch j twice_updated
        ≡ updated id compacting closed (updated id opened compacting (find_batch j db.batches))
  unfolding twice_updated
  find-twice j =
      find-update j id compacting closed (update_state id opened compacting db.batches)
      ∙ ap (updated id compacting closed) (find-update j id opened compacting db.batches)

  compact_batch-runs :
      compact_batch session id db
      ≡ (ok done, record db { batches = twice_updated; summaries = (do_compact db b).summaries })
  unfolding compact_batch try_acquire_batch_lock get_batch release_batch_lock unlock twice_updated
      transition_batch_state do_compact
  compact_batch-runs = ground (arith, meets_found id opened db.batches {b = b} found)

  -- On an OPEN batch whose lock no other session holds, `compactBatch` returns `ok`. The batch is
  -- then CLOSED and otherwise as it was, every other id reads as before, the summaries are those
  -- of the compaction of that batch, and the telemetry and the locks are unchanged.
  pub compact_batch_closes :
      (j : String)
      → let (r, db') = compact_batch session id db in
        (r ≡ ok done)
        × (find_batch j db'.batches
            ≡ (if str_eq id j then some (record b { state = closed }) else find_batch j db.batches))
        × (db'.summaries ≡ (do_compact db b).summaries)
        × (db'.telemetry ≡ db.telemetry)
        × (db'.locks ≡ db.locks)
  compact_batch_closes j = rw compact_batch-runs (refl, reads j, refl, refl, refl)
    where
      reads :
          (j : String)
          → find_batch j twice_updated
            ≡ (if str_eq id j then some (record b { state = closed }) else find_batch j db.batches)
      reads j = elim (Option-cases (find_batch j db.batches)) [
        | inl e ↦ rw (find-twice j, e) (ground (arith, eq_iff id j, found))
        | inr (c, e) ↦
            rw (find-twice j, e)
              (ground (
                arith,
                find-id j db.batches {b = c} e,
                find-id id db.batches {b = b} found,
                found,
                eq_iff c.id id,
                eq_iff id j,
              ))
      ]

  -- A batch that has been compacted is skipped by every later call, from any session.
  pub compact_batch_once :
      (later : ℕ)
      → let db' = (compact_batch session id db).1 in compact_batch later id db' ≡ (ok skipped, db')
  compact_batch_once later = compact_batch_skips later id (compact_batch session id db).1 (
      inr (
        inr (
          record b { state = closed },
          (compact_batch_closes id).1 ∙ ground (arith, eq_iff id id),
          λ e. cc,
        )))
