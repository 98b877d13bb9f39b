-- ===== src/Batches/Types.antt =====
-- The rows of src/ingestion/batchManager.ts and telemetryStore.ts, and the database.
use iot_billing_backend.Common.{ℕ, String, List}
use iot_billing_backend.Common.Int.{ℤ}

pub data BatchState : Type 0 where
  opened compacting closed : BatchState

pub record Batch : Type 0 where
  pub id : String
  pub device_id : String
  pub batch_start : ℕ
  pub batch_end : ℕ
  pub state : BatchState

pub record RawEvent : Type 0 where
  pub device_id : String
  pub metric_id : ℕ
  pub metric_value : ℤ
  pub time : ℕ

-- `avg_value` is a quotient, kept as its two terms: its rounding to a double is left out. So are
-- values that are not whole multiples of one unit, in which all values are counted here.
pub record TelemetrySummary : Type 0 where
  pub batch_id : String
  pub device_id : String
  pub metric_id : ℕ
  pub batch_start : ℕ
  pub batch_end : ℕ
  pub min_value : ℤ
  pub max_value : ℤ
  pub sum_value : ℤ
  pub avg_value : ℤ × ℕ
  pub event_count : ℕ

-- `locks` lists the session-level advisory locks that are held, as (session, key).
pub record Db : Type 0 where
  pub batches : List Batch
  pub telemetry : List RawEvent
  pub summaries : List TelemetrySummary
  pub locks : List (ℕ × ℕ)

-- An illegal transition, or an INSERT of an id that is taken.
pub data Error : Type 0 where
  invalid_transition : BatchState → BatchState → Error
  duplicate_id : Error
