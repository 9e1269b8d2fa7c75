-- ===== src/Presence/Domain.antt =====
-- LocationUpdate of services/presence/internal/domain/domain.go, as a row of location_updates. A
-- floating-point number is its bits, which the service only carries.
use parkirpintar.Common.{ℕ, Option, String}
use parkirpintar.Common.Time.{Time}

pub record Coordinate : Type 0 where
  pub latitude : ℕ
  pub longitude : ℕ
  pub accuracy : ℕ

pub record LocationUpdate : Type 0 where
  pub driver_id : String
  pub session_id : Option String
  pub reservation_id : Option String
  pub coordinate : Coordinate
  pub recorded_at : Time
