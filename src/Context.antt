-- ===== src/Context.antt =====
-- src/context.rs: the circuit breaker and the retry counters of the shared context.
pub mod Breaker
pub mod Retry
