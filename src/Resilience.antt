-- ===== src/Resilience.antt =====
-- packages/resilience: the circuit breaker, the token bucket and the retry loop.
pub mod Internal
pub mod Limiter
pub mod Circuit
pub mod Retry
mod Tests
