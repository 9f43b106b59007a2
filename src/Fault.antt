-- ===== src/Fault.antt =====
-- pkg/fault: the circuit breaker and the retry loop.
pub mod Breaker
pub mod Retry
