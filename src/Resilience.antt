-- ===== src/Resilience.antt =====
-- pkg/resilience: the circuit breaker and the retry manager.
pub mod Breaker
pub mod Retry
mod Tests
