-- ===== src/Batches/Tests.antt =====
-- Runs of the code of src/ingestion/batchManager.ts and batchCompactor.ts on a small database.
use iot_billing_backend.Common.{◌+◌, ◌%◌, ◌≤◌, ◌<◌, ◌≡◌, refl, some, [], ◌∷◌, if◌then◌else◌, str_eq}
use iot_billing_backend.Common.Int.{pos, negsuc}
use iot_billing_backend.Common.Result.{ok}
use iot_billing_backend.Batches.Types.{opened, compacting, closed, Batch, Db}
use iot_billing_backend.Batches.LockId.{batch_lock_id, batch_lock_id-lt}
use iot_billing_backend.Batches.Table.{find_batch, get_open_batch, held_by_other}
use iot_billing_backend.Batches.Summary.{do_compact}
use iot_billing_backend.Batches.Compactor.{
  compact_batch, rotate_batch, bucket_batch, successor, done, batch_window_ms, new_batch_id,
}
use iot_billing_backend.Batches.Compactor.Compact.{compact_batch_closes}
use iot_billing_backend.Batches.Compactor.Rotate.{rotate_batch_moves}
use iot_billing_backend.Batches.Compactor.Ensure.{bucket_batch_window}

abbrev batch : Batch
batch = record {
  id = "d1:300000";
  device_id = "d1";
  batch_start = 300000;
  batch_end = 600000;
  state = opened;
}

abbrev db : Db
db = record {
  batches = batch ∷ [];
  telemetry =
      record { device_id = "d1"; metric_id = 7; metric_value = pos 20; time = 400000 }
      ∷ record { device_id = "d1"; metric_id = 7; metric_value = negsuc 4; time = 300000 }
      ∷ record { device_id = "d1"; metric_id = 7; metric_value = pos 9; time = 600000 }
      ∷ [];
  summaries = [];
  locks = (2, 5) ∷ [];
}

new_id : new_batch_id "d1" 600000 ≡ "d1:600000"
unfolding new_batch_id
new_id = refl

batch_lock_id-lt_test : batch_lock_id "d1:300000" < 2147483648
batch_lock_id-lt_test = batch_lock_id-lt "d1:300000"

compact_batch_closes_example :
    let (r, d) = compact_batch 1 "d1:300000" db in
    (r ≡ ok done)
    × (find_batch "d1:300000" d.batches ≡ (
        if str_eq "d1:300000" "d1:300000"
        then some (record batch { state = closed })
        else find_batch "d1:300000" db.batches))
    × (d.summaries ≡ (do_compact db batch).summaries)
    × (d.telemetry ≡ db.telemetry)
    × (d.locks ≡ db.locks)
unfolding find_batch held_by_other batch_lock_id
compact_batch_closes_example =
    compact_batch_closes 1 "d1:300000" db batch refl refl refl "d1:300000"

rotate_batch_moves_example :
    let next = successor "d1" batch in
    let (r, d) = rotate_batch 1 "d1" db in
    (r ≡ ok (some next))
    × (find_batch "x" d.batches ≡ (
        if str_eq batch.id "x"
        then some (record batch { state = closed })
        else if str_eq next.id "x"
        then some next
        else find_batch "x" db.batches))
    × (d.summaries ≡ (do_compact db (record batch { state = compacting })).summaries)
    × (d.telemetry ≡ db.telemetry)
    × (d.locks ≡ db.locks)
unfolding find_batch get_open_batch held_by_other batch_lock_id new_batch_id
rotate_batch_moves_example = rotate_batch_moves 1 "d1" db batch refl refl refl refl refl "x"

bucket_batch_window_test :
    let b = bucket_batch "d1" 700000 in
    (b.batch_start ≤ 700000)
    × (700000 < b.batch_end)
    × (b.batch_end ≡ b.batch_start + batch_window_ms)
    × (b.batch_start % batch_window_ms ≡ 0)
bucket_batch_window_test = bucket_batch_window "d1" 700000
