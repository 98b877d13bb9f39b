-- ===== src/Batches/Summary/Laws.antt =====
-- `doCompact` of src/ingestion/batchCompactor.ts against a description without loops: one summary
-- for each metric that has events in the window.
use mathlib.Core.List.{append-nil, append_assoc}
use iot_billing_backend.Common.{
  ℕ, ◌≡◌, refl, ◌∙◌, ap, sym, true, false, ◌&&◌, Option, none, some, List, [], ◌∷◌, ◌++◌, arith,
  str_eq, eq_iff, if◌then◌else◌, ◌==◌, ==_iff, Bool-cases, inl, inr,
}
use iot_billing_backend.Common.Int.{ℤ}
use iot_billing_backend.Batches.Types.{Batch, RawEvent, TelemetrySummary, Db}
use iot_billing_backend.Batches.Summary.{
  read_raw_events, Groups, push_value, group_by_metric, summarise, has_summary, write_summary,
  write_groups, compacted, do_compact,
}

-- The values of a metric, in the order of the events.
abbrev pub values_of : ℕ → List RawEvent → List ℤ
values_of m [] = []
values_of m (e ∷ es) = if e.metric_id == m then e.metric_value ∷ values_of m es else values_of m es

abbrev values_in : ℕ → Groups → List ℤ
values_in m [] = []
values_in m ((k, vals) ∷ g) = if k == m then vals else values_in m g

values_in-push :
    (m k : ℕ) (v : ℤ) (g : Groups)
    → values_in m (push_value k v g) ≡ values_in m g ++ (if k == m then v ∷ [] else [])
unfolding push_value
values_in-push m k v [] = ground arith
values_in-push m k v ((j, vals) ∷ g) =
    ground (arith, values_in-push m k v g, append-nil vals, append-nil (values_in m g))

values_in-group :
    (m : ℕ) (es : List RawEvent) (g : Groups)
    → values_in m (group_by_metric es g) ≡ values_in m g ++ values_of m es
unfolding group_by_metric
values_in-group m [] g = sym (append-nil (values_in m g))
values_in-group m (e ∷ es) g =
    rw
      (
        values_in-group m es (push_value e.metric_id e.metric_value g),
        values_in-push m e.metric_id e.metric_value g,
      )
      (elim (Bool-cases (e.metric_id == m)) [
        | inl same ↦ rw (same, append_assoc) refl
        | inr other ↦ rw (other, append_assoc) refl
      ])

abbrev HasValues : Groups → Type 0
HasValues [] = Unit {0}
HasValues ((k, []) ∷ g) = ⊥
HasValues ((k, v ∷ vs) ∷ g) = HasValues g

HasValues-push : (k : ℕ) (v : ℤ) (g : Groups) → HasValues g → HasValues (push_value k v g)
unfolding push_value
HasValues-push k v [] h = tt
HasValues-push k v ((j, []) ∷ g) h = absurd h
HasValues-push k v ((j, w ∷ ws) ∷ g) h = elim (Bool-cases (j == k)) [
  | inl same ↦ rw same h
  | inr other ↦ rw other (HasValues-push k v g h)
]

HasValues-group : (es : List RawEvent) (g : Groups) → HasValues g → HasValues (group_by_metric es g)
unfolding group_by_metric
HasValues-group [] g h = h
HasValues-group (e ∷ es) g h = HasValues-group es _ (HasValues-push e.metric_id e.metric_value g h)

-- The row of a batch and a metric.
unfoldable pub find_summary : Batch → ℕ → List TelemetrySummary → Option TelemetrySummary
find_summary b m [] = none
find_summary b m (t ∷ ts) =
    if str_eq t.batch_id b.id && (str_eq t.device_id b.device_id && t.metric_id == m)
    then some t
    else find_summary b m ts

abbrev pub summary_of : Batch → ℕ → List ℤ → Option TelemetrySummary
summary_of b m [] = none
summary_of b m (v ∷ vs) = some (summarise b m v vs)

abbrev pub first_some : Option TelemetrySummary → Option TelemetrySummary → Option TelemetrySummary
first_some none o = o
first_some (some t) o = some t

first_some-none : (o : Option TelemetrySummary) → first_some o none ≡ o
first_some-none none = refl
first_some-none (some t) = refl

first_some-twice :
    (o : Option TelemetrySummary) (t : TelemetrySummary) (rest : Option TelemetrySummary)
    → first_some (first_some o (some t)) rest ≡ first_some o (some t)
first_some-twice none t rest = refl
first_some-twice (some u) t rest = refl

has_summary-found :
    (b : Batch) (m : ℕ) (v : ℤ) (vs : List ℤ) (ts : List TelemetrySummary)
    → has_summary (summarise b m v vs) ts
      ≡ elim (find_summary b m ts) [ none ↦ false | some t ↦ true ]
unfolding has_summary find_summary summarise
has_summary-found b m v vs [] = refl
has_summary-found b m v vs (t ∷ ts) = ground (arith, has_summary-found b m v vs ts)

find-write :
    (b : Batch) (m k : ℕ) (v : ℤ) (vs : List ℤ) (ts : List TelemetrySummary)
    → find_summary b m (write_summary (summarise b k v vs) ts)
      ≡ first_some (find_summary b m ts) (if k == m then some (summarise b k v vs) else none)
unfolding write_summary find_summary summarise
find-write b m k v vs ts =
    ground (arith, has_summary-found b k v vs ts, eq_iff b.id b.id, eq_iff b.device_id b.device_id)

find-write_groups :
    (b : Batch) (m : ℕ) (g : Groups) (ts : List TelemetrySummary)
    → HasValues g
    → find_summary b m (write_groups b g ts)
      ≡ first_some (find_summary b m ts) (summary_of b m (values_in m g))
unfolding write_groups
find-write_groups b m [] ts h = sym (first_some-none (find_summary b m ts))
find-write_groups b m ((k, []) ∷ g) ts h = absurd h
find-write_groups b m ((k, v ∷ vs) ∷ g) ts h =
    rw (find-write_groups b m g (write_summary (summarise b k v vs) ts) h, find-write b m k v vs ts)
      (elim (Bool-cases (k == m)) [
        | inl same ↦
            rw (same, (==_iff k m).0 same)
              (first_some-twice (find_summary b m ts) (summarise b m v vs) _)
        | inr other ↦ rw (other, first_some-none (find_summary b m ts)) refl
      ])

compacted_summaries :
    (b : Batch) (m : ℕ) (es : List RawEvent) (ts : List TelemetrySummary)
    → find_summary b m (compacted b es ts)
      ≡ first_some (find_summary b m ts) (summary_of b m (values_of m es))
unfolding compacted
compacted_summaries b m [] ts = sym (first_some-none (find_summary b m ts))
compacted_summaries b m (e ∷ es) ts =
    find-write_groups b m (group_by_metric (e ∷ es) []) ts (HasValues-group (e ∷ es) [] tt)
    ∙ ap (λ vals. first_some (find_summary b m ts) (summary_of b m vals))
        (values_in-group m (e ∷ es) [])

-- After a compaction, the row of the batch and a metric is the one that was there before, if any;
-- otherwise it is the summary of the metric's values in the batch's window, and there is none if
-- the window has no such value.
pub do_compact_summaries :
    (db : Db) (b : Batch) (m : ℕ)
    → find_summary b m (do_compact db b).summaries
      ≡ first_some (find_summary b m db.summaries) (
          summary_of b m
            (values_of m (read_raw_events b.device_id b.batch_start b.batch_end db.telemetry)))
unfolding do_compact
do_compact_summaries db b m = compacted_summaries b m _ db.summaries
