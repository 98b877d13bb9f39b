-- ===== src/Batches.antt =====
-- src/ingestion/batchManager.ts, batchCompactor.ts and telemetryStore.ts: five-minute batches of
-- telemetry per device. The tables and the advisory locks of the database are the state. Times are
-- milliseconds. Metric values are integers (a fixed scale), as the language has no floats; an
-- average is kept as its sum and count.
pub mod Types
pub mod LockId
pub mod Table
pub mod Summary
pub mod Compactor
mod Tests
