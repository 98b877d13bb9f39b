-- ===== src/Billing.antt =====
-- Billing cycles: src/billing.
pub mod StateMachine
pub mod Store
pub mod Uuid
pub mod Scheduler
pub mod Finalizer
mod Tests
