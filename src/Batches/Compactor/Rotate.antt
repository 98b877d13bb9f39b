-- ===== src/Batches/Compactor/Rotate.antt =====
-- `rotateBatch` of src/ingestion/batchCompactor.ts.
use iot_billing_backend.Common.{
  ℕ, ◌+◌, ◌≤◌, ◌≡◌, refl, String, false, none, some, List, ◌∷◌, inl, inr, arith, str_eq, eq_iff,
  if◌then◌else◌, Option-cases, ap, ◌∙◌,
}
use mathlib.Core.Path.{subst}
use iot_billing_backend.Common.Result.{ok, throws}
use iot_billing_backend.Batches.Types.{opened, compacting, closed, Batch, Db, duplicate_id}
use iot_billing_backend.Batches.LockId.{batch_lock_id}
use iot_billing_backend.Batches.Table.{
  find_batch, get_batch, transition_batch_state, try_acquire_batch_lock, held_by_other,
  release_batch_lock, unlock, update_state, get_open_batch, create_batch,
}
use iot_billing_backend.Batches.Table.Laws.{
  find-update, find-id, meets_found, updated, OpenUpTo, OpenUpTo-update, Newest,
  open_batch_of-Newest, open_batch_of-first,
}
use iot_billing_backend.Batches.Summary.{do_compact}
use iot_billing_backend.Batches.Compactor.{rotate_batch, successor, batch_window_ms}

module _ (session : ℕ) (device : String) (db : Db) (current : Batch)
    (newest : get_open_batch db device ≡ some current)
    (found : find_batch current.id db.batches ≡ some current) (is_open : current.state ≡ opened)
    (is_free : held_by_other session (batch_lock_id current.id) db.locks ≡ false) where
  first_updated : List Batch
  first_updated = update_state current.id opened compacting db.batches

  find-first :
      (j : String)
      → find_batch j first_updated ≡ updated current.id opened compacting (find_batch j db.batches)
  unfolding first_updated
  find-first j = find-update j current.id opened compacting db.batches

  -- If the successor's id is taken, `rotateBatch` throws, and the transaction leaves the database
  -- as it was, locks included.
  pub rotate_batch_conflict :
      {other : Batch}
      → find_batch (successor device current).id db.batches ≡ some other
      → rotate_batch session device db ≡ (throws duplicate_id, db)
  unfolding rotate_batch try_acquire_batch_lock get_batch release_batch_lock unlock
      transition_batch_state create_batch
  rotate_batch_conflict {other} taken = ground (
    arith,
    meets_found current.id opened db.batches {b = current} found,
    find-update (successor device current).id current.id opened compacting db.batches,
  )

  module _ (free : find_batch (successor device current).id db.batches ≡ none) where
    -- The batches at the end of a rotation.
    rotated : List Batch
    rotated = update_state current.id compacting closed (successor device current ∷ first_updated)

    rotate_batch-runs : rotate_batch session device db ≡ (
      ok (some (successor device current)),
      record db {
        batches = rotated;
        summaries = (do_compact db (record current { state = compacting })).summaries;
      },
    )
    unfolding rotate_batch try_acquire_batch_lock get_batch release_batch_lock unlock
        transition_batch_state create_batch rotated first_updated do_compact
    rotate_batch-runs = ground (
      arith,
      meets_found current.id opened db.batches {b = current} found,
      find-update (successor device current).id current.id opened compacting db.batches,
    )

    find-rotated :
        (j : String)
        → find_batch j rotated
          ≡ updated current.id compacting closed (
              if str_eq (successor device current).id j
              then some (successor device current)
              else updated current.id opened compacting (find_batch j db.batches))
    unfolding rotated find_batch
    find-rotated j =
        find-update j current.id compacting closed (successor device current ∷ first_updated)
        ∙ ap (updated current.id compacting closed) (unfold find_batch in rw (find-first j))

    -- Where the device's current batch is OPEN and under its id in the table, its lock is free, and
    -- no batch has the successor's id, a rotation returns the successor: the old batch is then
    -- CLOSED, the successor is in the table, every other id reads as before, the summaries are those
    -- of the old batch's compaction, and the telemetry and the locks are unchanged.
    pub rotate_batch_moves :
        (j : String)
        → let next = successor device current in
          let (r, db') = rotate_batch session device db in
          (r ≡ ok (some next))
          × (find_batch j db'.batches ≡ (
              if str_eq current.id j
              then some (record current { state = closed })
              else if str_eq next.id j
              then some next
              else find_batch j db.batches))
          × (db'.summaries ≡ (do_compact db (record current { state = compacting })).summaries)
          × (db'.telemetry ≡ db.telemetry)
          × (db'.locks ≡ db.locks)
    rotate_batch_moves j = rw rotate_batch-runs (refl, reads j, refl, refl, refl)
      where
        reads :
            (j : String)
            → find_batch j rotated ≡ (
                if str_eq current.id j
                then some (record current { state = closed })
                else if str_eq (successor device current).id j
                then some (successor device current)
                else find_batch j db.batches)
        reads j = elim (Option-cases (find_batch j db.batches)) [
          | inl e ↦
              rw (find-rotated j, e)
                (ground (arith, found, eq_iff current.id j, eq_iff (successor device current).id j))
          | inr (c, e) ↦
              rw (find-rotated j, e)
                (ground (
                  arith,
                  find-id j db.batches {b = c} e,
                  found,
                  free,
                  eq_iff c.id current.id,
                  eq_iff current.id j,
                  eq_iff (successor device current).id j,
                ))
        ]

    rotated-cons :
        rotated ≡ successor device current ∷ update_state current.id compacting closed first_updated
    unfolding rotated update_state
    rotated-cons = ground arith

    rest-OpenUpTo :
        OpenUpTo current.batch_start device
          (update_state current.id compacting closed first_updated)
    unfolding first_updated get_open_batch
    rest-OpenUpTo =
        OpenUpTo-update current.batch_start device current.id compacting closed
          (update_state current.id opened compacting db.batches) (λ e. cc)
          (OpenUpTo-update current.batch_start device current.id opened compacting db.batches
            (λ e. cc)
            (subst (Newest device db.batches) newest (open_batch_of-Newest device db.batches)))

    -- After a rotation the successor is the device's OPEN batch. It starts where the old batch
    -- ends, so that no instant lies between the two or in both.
    pub rotate_batch_continues :
        current.batch_start ≤ current.batch_end
        → let next = successor device current in
          (get_open_batch (rotate_batch session device db).1 device ≡ some next)
          × (next.batch_start ≡ current.batch_end)
          × (next.batch_end ≡ next.batch_start + batch_window_ms)
    unfolding get_open_batch
    rotate_batch_continues ordered =
        rw (rotate_batch-runs, rotated-cons)
          (
            open_batch_of-first current.batch_start (successor device current) _ refl ordered
                rest-OpenUpTo,
            refl,
            refl,
          )
