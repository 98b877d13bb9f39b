-- ===== src/Ingestion.antt =====
-- src/core/ingestion: what happens to a device's stream before it is stored.
pub mod StateMachine
pub mod Backpressure
pub mod Budget
pub mod Reassembler
pub mod Parser
pub mod Replay
pub mod Reorder
pub mod Sse
pub mod Locks
mod Tests
mod ValidatorTests
