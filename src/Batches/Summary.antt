-- ===== src/Batches/Summary.antt =====
-- `readRawEvents`, `writeSummary` (src/ingestion/telemetryStore.ts) and `doCompact`
-- (src/ingestion/batchCompactor.ts).
pub mod Laws
pub mod Figures
use iot_billing_backend.Common.{
  ℕ, ◌+◌, String, Bool, true, false, ◌||◌, ◌&&◌, List, [], ◌∷◌, ◌++◌, ◌==◌, ltb, leb, length,
  if◌then◌else◌, str_eq,
}
use iot_billing_backend.Common.Int.{ℤ, pos, ◌+ℤ◌, ltb_ℤ}
use iot_billing_backend.Batches.Types.{Batch, RawEvent, TelemetrySummary, Db}

-- `WHERE device_id = $1 AND time >= $2 AND time < $3`
abbrev pub in_window : String → ℕ → ℕ → RawEvent → Bool
in_window device start end_ e = str_eq e.device_id device && (leb start e.time && ltb e.time end_)

-- `ORDER BY time ASC`
insert_by_time : RawEvent → List RawEvent → List RawEvent
insert_by_time e [] = e ∷ []
insert_by_time e (x ∷ xs) = if leb e.time x.time then e ∷ x ∷ xs else x ∷ insert_by_time e xs

unfoldable pub read_raw_events : String → ℕ → ℕ → List RawEvent → List RawEvent
unfolding insert_by_time
read_raw_events device start end_ [] = []
read_raw_events device start end_ (e ∷ es) =
    let others = read_raw_events device start end_ es in
    if in_window device start end_ e then insert_by_time e others else others

-- A `Map` from a metric to its values, in insertion order.
abbrev pub Groups : Type 0
Groups = List (ℕ × List ℤ)

-- `byMetric.get(m) ?? []`, `push`, `byMetric.set(m, ...)`.
unfoldable pub push_value : ℕ → ℤ → Groups → Groups
push_value m v [] = (m, v ∷ []) ∷ []
push_value m v ((k, vals) ∷ g) =
    if k == m then (k, vals ++ v ∷ []) ∷ g else (k, vals) ∷ push_value m v g

unfoldable pub group_by_metric : List RawEvent → Groups → Groups
unfolding push_value
group_by_metric [] g = g
group_by_metric (e ∷ es) g = group_by_metric es (push_value e.metric_id e.metric_value g)

-- `Math.min`, `Math.max` and the sum, over the values after the first.
unfoldable pub min_of : ℤ → List ℤ → ℤ
min_of a [] = a
min_of a (v ∷ vs) = min_of (if ltb_ℤ v a then v else a) vs

unfoldable pub max_of : ℤ → List ℤ → ℤ
max_of a [] = a
max_of a (v ∷ vs) = max_of (if ltb_ℤ a v then v else a) vs

unfoldable pub sum_of : ℤ → List ℤ → ℤ
sum_of a [] = a
sum_of a (v ∷ vs) = sum_of (a +ℤ v) vs

-- The summary of one metric; a group in the map is never empty.
unfoldable pub summarise : Batch → ℕ → ℤ → List ℤ → TelemetrySummary
unfolding min_of max_of sum_of
summarise b m v vs = record {
  batch_id = b.id;
  device_id = b.device_id;
  metric_id = m;
  batch_start = b.batch_start;
  batch_end = b.batch_end;
  min_value = min_of v vs;
  max_value = max_of v vs;
  sum_value = sum_of (pos 0) (v ∷ vs);
  avg_value = (sum_of (pos 0) (v ∷ vs), length (v ∷ vs));
  event_count = length (v ∷ vs);
}

abbrev pub same_key : TelemetrySummary → TelemetrySummary → Bool
same_key s t =
    str_eq s.batch_id t.batch_id && (str_eq s.device_id t.device_id && s.metric_id == t.metric_id)

unfoldable pub has_summary : TelemetrySummary → List TelemetrySummary → Bool
has_summary s [] = false
has_summary s (t ∷ ts) = same_key t s || has_summary s ts

-- `ON CONFLICT (batch_id, device_id, metric_id) DO NOTHING`
unfoldable pub write_summary : TelemetrySummary → List TelemetrySummary → List TelemetrySummary
unfolding has_summary
write_summary s ts = if has_summary s ts then ts else s ∷ ts

unfoldable pub write_groups : Batch → Groups → List TelemetrySummary → List TelemetrySummary
unfolding write_summary summarise
write_groups b [] ts = ts
write_groups b ((m, []) ∷ g) ts = write_groups b g ts
write_groups b ((m, v ∷ vs) ∷ g) ts = write_groups b g (write_summary (summarise b m v vs) ts)

-- The summaries after `doCompact` has read the events of the batch.
unfoldable pub compacted : Batch → List RawEvent → List TelemetrySummary → List TelemetrySummary
unfolding group_by_metric write_groups
compacted b [] ts = ts
compacted b (e ∷ es) ts = write_groups b (group_by_metric (e ∷ es) []) ts

unfoldable pub do_compact : Db → Batch → Db
do_compact db b = record db {
  summaries =
      compacted b (read_raw_events b.device_id b.batch_start b.batch_end db.telemetry) db.summaries;
}
