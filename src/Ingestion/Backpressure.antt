-- ===== src/Ingestion/Backpressure.antt =====
-- src/core/ingestion/backpressure.ts: load levels and the detection of lost ledger events.
pub mod Levels
pub mod Gaps
use iot_billing_backend.Common.{
  ℕ, ◌+◌, ◌-◌, ◌*◌, Bool, true, false, Option, none, some, List, [], ◌∷◌, ◌||◌, ltb, leb, ◌==◌,
  if◌then◌else◌,
}

pub data BackpressureLevel : Type 0 where
  normal warning critical : BackpressureLevel

-- The enum's numbers.
abbrev pub level_value : BackpressureLevel → ℕ
level_value normal = 0
level_value warning = 1
level_value critical = 2

-- The utilization is in thousandths.
pub record BackpressureMetrics : Type 0 where
  pub task_queue_depth : ℕ
  pub memory_usage_bytes : ℕ
  pub db_connection_utilization : ℕ

abbrev pub max_queue_depth : ℕ
max_queue_depth = 10000

abbrev pub max_memory_bytes : ℕ
max_memory_bytes = 536870912

abbrev pub max_db_utilization : ℕ
max_db_utilization = 850

-- `level`, `metrics` and the levels that were emitted, newest first.
pub record Controller : Type 0 where
  pub level : BackpressureLevel
  pub metrics : BackpressureMetrics
  pub emitted : List BackpressureLevel

-- A test against `limit * 0.7` is one of ten times the value against seven times the limit.
abbrev pub level_of : BackpressureMetrics → BackpressureLevel
level_of m =
    if ltb max_queue_depth m.task_queue_depth
      || ltb max_memory_bytes m.memory_usage_bytes
      || ltb max_db_utilization m.db_connection_utilization
    then critical
    else if ltb (7 * max_queue_depth) (10 * m.task_queue_depth)
        || ltb (7 * max_memory_bytes) (10 * m.memory_usage_bytes)
        || ltb (7 * max_db_utilization) (10 * m.db_connection_utilization)
    then warning
    else normal

unfoldable pub evaluate : BackpressureMetrics → Controller → BackpressureLevel × Controller
evaluate m c =
    (level_of m, record { level = level_of m; metrics = m; emitted = level_of m ∷ c.emitted })

unfoldable pub should_throttle : Controller → Bool
should_throttle c = leb 1 (level_value c.level)

unfoldable pub should_pause : Controller → Bool
should_pause c = leb 2 (level_value c.level)

pub record LedgerGap : Type 0 where
  pub expected_seq : ℕ
  pub observed_seq : ℕ
  pub missing_count : ℕ

abbrev pub gap_between : ℕ → ℕ → LedgerGap
gap_between previous seq = record {
  expected_seq = previous + 1;
  observed_seq = seq;
  missing_count = seq - (previous + 1);
}

-- LedgerGapDetector.record on `lastSeq`: the gap, and the new `lastSeq`.
unfoldable pub record_seq : ℕ → Option ℕ → Option LedgerGap × Option ℕ
record_seq seq none = (none, some seq)
record_seq seq (some previous) =
    if leb seq previous
    then (none, some previous)
    else if seq == previous + 1
    then (none, some seq)
    else (some (gap_between previous seq), some seq)

-- The gaps that a run of deliveries emits, and the last number.
unfoldable pub record_all : List ℕ → Option ℕ → List LedgerGap × Option ℕ
record_all [] last = ([], last)
record_all (s ∷ ss) last =
    let (gap, last') = record_seq s last in
    let (gaps, end) = record_all ss last' in (elim gap [ none ↦ gaps | some g ↦ g ∷ gaps ], end)
