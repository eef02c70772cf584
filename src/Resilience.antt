-- ===== src/Resilience.antt =====
-- Pacing of calls to external services: dockerls/utils/rate_limit.py.
pub mod Limiter
pub mod Breaker
pub mod Fallback
