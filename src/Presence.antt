-- ===== src/Presence.antt =====
-- services/presence: where the drivers are.
pub mod Domain
pub mod Repository
pub mod Handler
pub mod Tracking
