-- ===== src/Shared.antt =====
-- The packages of pkg/ that the services share and that keep state in Redis.
pub mod Lock
pub mod Holding
pub mod Idempotency
pub mod Held
