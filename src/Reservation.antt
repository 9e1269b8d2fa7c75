-- ===== src/Reservation.antt =====
-- services/reservation: the rows and values, the queries, the use cases, the handler.
pub mod Domain
pub mod Repository
pub mod Publisher
pub mod Usecase
pub mod Outcomes
pub mod Keys
pub mod Creation
pub mod Transitions
pub mod Expiry
pub mod ExpiryMoves
pub mod Writes
pub mod Requests
pub mod Lifecycle
pub mod Races
pub mod Interleaving
pub mod Halves
pub mod DoubleBooking
pub mod Spots
pub mod Handler
pub mod Answers
