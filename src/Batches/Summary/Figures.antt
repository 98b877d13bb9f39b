-- ===== src/Batches/Summary/Figures.antt =====
-- The figures of a summary of src/ingestion/batchCompactor.ts: count, sum, least and greatest.
use iot_billing_backend.Common.{
  ℕ, zero, suc, ◌+◌, ◌≡◌, refl, String, Bool, true, false, ◌&&◌, none, some, List, [], ◌∷◌, arith,
  if◌then◌else◌, ◌==◌, length, All, get_elem?, ◌∙◌,
}
use iot_billing_backend.Common.Int.{ℤ, pos, ◌+ℤ◌, ◌≤ℤ◌, ltb_ℤ, int_laws}
use iot_billing_backend.Batches.Types.{Batch, RawEvent, TelemetrySummary, Db}
use iot_billing_backend.Batches.Summary.{
  in_window, insert_by_time, read_raw_events, min_of, max_of, sum_of, summarise, do_compact,
}
use iot_billing_backend.Batches.Summary.Laws.{
  values_of, summary_of, find_summary, do_compact_summaries,
}

-- How many rows of the telemetry table are the metric's in the window.
abbrev pub events_in : String → ℕ → ℕ → ℕ → List RawEvent → ℕ
events_in device start end_ m [] = 0
events_in device start end_ m (e ∷ es) =
    (if in_window device start end_ e && e.metric_id == m then 1 else 0)
    + events_in device start end_ m es

length-insert :
    (m : ℕ) (e : RawEvent) (es : List RawEvent)
    → length (values_of m (insert_by_time e es)) ≡ length (values_of m (e ∷ es))
unfolding insert_by_time
length-insert m e [] = refl
length-insert m e (x ∷ es) = ground (arith, length-insert m e es)

length-read :
    (device : String) (start end_ m : ℕ) (es : List RawEvent)
    → length (values_of m (read_raw_events device start end_ es)) ≡ events_in device start end_ m es
unfolding read_raw_events
length-read device start end_ m [] = refl
length-read device start end_ m (e ∷ es) = ground (
  arith,
  length-read device start end_ m es,
  length-insert m e (read_raw_events device start end_ es),
)

min_of-le : (a : ℤ) (vs : List ℤ) → (min_of a vs ≤ℤ a) × All (λ v. min_of a vs ≤ℤ v) vs
unfolding min_of
min_of-le a [] = (omega arith, tt)
min_of-le a (v ∷ vs) =
    let (least, rest) = min_of-le (if ltb_ℤ v a then v else a) vs in
    (ground (arith, least), (ground (arith, least), rest))

max_of-le : (a : ℤ) (vs : List ℤ) → (a ≤ℤ max_of a vs) × All (λ v. v ≤ℤ max_of a vs) vs
unfolding max_of
max_of-le a [] = (omega arith, tt)
max_of-le a (v ∷ vs) =
    let (greatest, rest) = max_of-le (if ltb_ℤ a v then v else a) vs in
    (ground (arith, greatest), (ground (arith, greatest), rest))

-- A value stands somewhere in a list.
abbrev pub Among : ℤ → List ℤ → Type 0
Among a vs = (i : ℕ) × (get_elem? vs i ≡ some a)

-- One of the first two values, or one of the others.
Among-choice :
    (x a v : ℤ) (test : Bool) (vs : List ℤ)
    → Among x ((if test then v else a) ∷ vs)
    → Among x (a ∷ v ∷ vs)
Among-choice x a v true vs (zero, e) = (1, e)
Among-choice x a v true vs (suc i, e) = (suc (suc i), e)
Among-choice x a v false vs (zero, e) = (0, e)
Among-choice x a v false vs (suc i, e) = (suc (suc i), e)

min_of-Among : (a : ℤ) (vs : List ℤ) → Among (min_of a vs) (a ∷ vs)
unfolding min_of
min_of-Among a [] = (0, refl)
min_of-Among a (v ∷ vs) =
    Among-choice _ a v (ltb_ℤ v a) vs (min_of-Among (if ltb_ℤ v a then v else a) vs)

max_of-Among : (a : ℤ) (vs : List ℤ) → Among (max_of a vs) (a ∷ vs)
unfolding max_of
max_of-Among a [] = (0, refl)
max_of-Among a (v ∷ vs) =
    Among-choice _ a v (ltb_ℤ a v) vs (max_of-Among (if ltb_ℤ a v then v else a) vs)

-- The sum, written as a plain recursion.
abbrev pub total : List ℤ → ℤ
total [] = pos 0
total (v ∷ vs) = v +ℤ total vs

sum_of-total : (a : ℤ) (vs : List ℤ) → sum_of a vs ≡ a +ℤ total vs
unfolding sum_of
sum_of-total a [] = omega int_laws
sum_of-total a (v ∷ vs) = rw (sum_of-total (a +ℤ v) vs) (omega int_laws)

-- The summary of a metric's values: the least value is one of them and below all, the greatest is
-- one of them and above all, the sum is their sum, and the count is how many they are.
pub summarise_lem :
    (b : Batch) (m : ℕ) (v : ℤ) (vs : List ℤ)
    → let s = summarise b m v vs in
      Among s.min_value (v ∷ vs)
      × All (λ x. s.min_value ≤ℤ x) (v ∷ vs)
      × Among s.max_value (v ∷ vs)
      × All (λ x. x ≤ℤ s.max_value) (v ∷ vs)
      × (s.sum_value ≡ total (v ∷ vs))
      × (s.event_count ≡ length (v ∷ vs))
unfolding summarise
summarise_lem b m v vs = (
  min_of-Among v vs,
  min_of-le v vs,
  max_of-Among v vs,
  max_of-le v vs,
  rw (sum_of-total (pos 0) (v ∷ vs)) (omega int_laws),
  refl,
)

count_of :
    (b : Batch) (m : ℕ) (vals : List ℤ) {t : TelemetrySummary}
    → summary_of b m vals ≡ some t
    → t.event_count ≡ length vals
unfolding summarise
count_of b m [] e = cc
count_of b m (v ∷ vs) e = ground arith

-- A row that a compaction adds counts exactly the rows of the telemetry table that are the
-- device's and the metric's and lie in the batch's window, its start included and its end not.
pub do_compact_counts :
    (db : Db) (b : Batch) (m : ℕ) {t : TelemetrySummary}
    → find_summary b m db.summaries ≡ none
    → find_summary b m (do_compact db b).summaries ≡ some t
    → t.event_count ≡ events_in b.device_id b.batch_start b.batch_end m db.telemetry
do_compact_counts db b m {t} fresh found =
    count_of b m (values_of m (read_raw_events b.device_id b.batch_start b.batch_end db.telemetry))
      {t = t} (ground (arith, fresh, found, do_compact_summaries db b m))
    ∙ length-read b.device_id b.batch_start b.batch_end m db.telemetry
