-- ===== src/Batches/Compactor/Ensure.antt =====
-- `ensureOpenBatch` of src/ingestion/batchCompactor.ts.
use iot_billing_backend.Common.{
  ℕ, ◌+◌, ◌%◌, ◌≤◌, ◌<◌, ◌≡◌, String, none, some, ◌⊎◌, inl, inr, ◌∷◌, arith, eq_iff,
}
use iot_billing_backend.Batches.Types.{opened, Batch, Db}
use iot_billing_backend.Batches.Table.{find_batch, get_open_batch}
use iot_billing_backend.Batches.Compactor.{ensure_open_batch, bucket_batch, batch_window_ms}

bucket_opens :
    (device : String) (now : ℕ) (db : Db)
    → get_open_batch db device ≡ none
    → get_open_batch (record db { batches = bucket_batch device now ∷ db.batches }) device
      ≡ some (bucket_batch device now)
unfolding get_open_batch
bucket_opens device now db e = ground (arith, e, eq_iff device device)

-- If the device has an OPEN batch, or the bucket's id is free, then the batch that
-- `ensureOpenBatch` returns is the device's OPEN batch in the database afterwards, and a later call
-- returns the same batch and changes nothing.
pub ensure_open_batch_opens :
    (device : String) (now later : ℕ) (db : Db)
    → ((c : Batch) × (get_open_batch db device ≡ some c))
      ⊎ ((get_open_batch db device ≡ none)
          × (find_batch (bucket_batch device now).id db.batches ≡ none))
    → let (b, db') = ensure_open_batch device now db in
      (get_open_batch db' device ≡ some b) × (ensure_open_batch device later db' ≡ (b, db'))
unfolding ensure_open_batch
ensure_open_batch_opens device now later db (inl (c, e)) = ground (arith, e)
ensure_open_batch_opens device now later db (inr (e, free)) =
    let opens = bucket_opens device now db e in ground (arith, e, free, opens)

-- A new batch holds `now`, is five minutes long, and starts at a multiple of five minutes.
pub bucket_batch_window :
    (device : String) (now : ℕ)
    → let b = bucket_batch device now in
      (b.batch_start ≤ now)
      × (now < b.batch_end)
      × (b.batch_end ≡ b.batch_start + batch_window_ms)
      × (b.batch_start % batch_window_ms ≡ 0)
bucket_batch_window device now = omega arith

-- Where the bucket's id is taken and no batch of the device is OPEN, `ensureOpenBatch` returns a
-- batch that says OPEN, and the database still has no OPEN batch of the device.
pub ensure_open_batch_fails :
    (device : String) (now : ℕ) (db : Db) {taken : Batch}
    → get_open_batch db device ≡ none
    → find_batch (bucket_batch device now).id db.batches ≡ some taken
    → let (b, db') = ensure_open_batch device now db in
      (b.state ≡ opened) × (get_open_batch db' device ≡ none) × (db' ≡ db)
unfolding ensure_open_batch
ensure_open_batch_fails device now db {taken} closed found = ground (arith, closed, found)
