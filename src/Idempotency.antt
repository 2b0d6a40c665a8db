-- ===== src/Idempotency.antt =====
-- server/apiIdempotency.js: creates under an `Idempotency-Key`.
pub mod Reservations
pub mod Resumption
pub mod Execution
pub mod Replay
mod Tests
