-- ===== src/Gateway.antt =====
-- services/gateway: the HTTP handlers that write to the tables themselves
-- (internal/handler/extra.go) and those that call the other services (internal/handler/handler.go).
pub mod Confirmation
pub mod Paid
pub mod Confirming
pub mod Holding
pub mod Writes
pub mod Listing
pub mod Settling
pub mod Pending
pub mod History
pub mod Settlement
pub mod Client
pub mod Handler
pub mod Bills
pub mod Booking
pub mod Charging
pub mod Billed
pub mod Crossing
pub mod SpotList
pub mod Relay
pub mod Serving
pub mod Guarding
pub mod Throttling
pub mod Logged
pub mod Unreleased
pub mod Latest
