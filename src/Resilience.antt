-- ===== src/Resilience.antt =====
-- integrations/resilience.py: the circuit breaker, the rate limiter and the expiring cache that
-- every adapter to an outside service is built from.
pub mod Breaker
pub mod Limiter
pub mod Cache
