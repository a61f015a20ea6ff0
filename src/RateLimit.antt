-- ===== src/RateLimit.antt =====
-- smolrouter/request_rate_limits.py: the two-window request rate limiter.
pub mod Policy
pub mod Window
pub mod Script
pub mod Retry
pub mod Admission
pub mod Limiter
mod Tests
