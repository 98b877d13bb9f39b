-- ===== src/Api.antt =====
-- src/api: who may call, and how often.
pub mod Session
pub mod Challenge
pub mod Bearer
pub mod Mtls
pub mod RateLimiter
pub mod AuthLimiter
mod Tests
