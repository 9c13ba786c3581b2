-- ===== src/Circuit.antt =====
-- The circuit breakers of internal/circuit/breaker.go.
pub mod Breaker
pub mod Manager
