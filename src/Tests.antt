-- ===== src/Tests.antt =====
-- A world with one spot of each type and a clock that moves ten seconds from one request of the
-- environment to the next, on which the tests of the children run.
mod Bookings
mod Crossings
mod Desk
mod Drivers
mod Fees
mod Gate
mod Gateways
mod Invoices
mod Limits
mod Payments
mod Replies
mod Serving
mod Settings
mod Checkouts
use parkirpintar.Common.{ℕ, zero, suc, ◌+◌, ◌*◌, [], ◌∷◌, none, String, ◌⧺◌}
use parkirpintar.Common.Time.{Time, hour}
use parkirpintar.World.{Env, World}
use parkirpintar.Reservation.Domain.{Spot, SpotRow, car, motorcycle, available}

abbrev pub noon : Time
noon = 490_000 * hour

abbrev pub ids : ℕ → String
ids zero = "id-00000"
ids (suc n) = "x" ⧺ ids n

abbrev pub clock_at : ℕ → Time
clock_at n = noon + n * 10_000_000_000

abbrev pub calm : Env
calm = record { fault = λ _. none; clock = clock_at; uuid = ids; cut = λ _. none }

abbrev pub spot1 : Spot
spot1 = record { spot_id = "s1"; floor = 1; spot_number = 7; vehicle_type = car }

abbrev pub spot2 : Spot
spot2 = record { spot_id = "s2"; floor = 1; spot_number = 3; vehicle_type = car }

abbrev pub row1 : SpotRow
row1 = record { spot = spot1; status = available }

abbrev pub row2 : SpotRow
row2 = record { spot = spot2; status = available }

abbrev pub start : World
start = record {
  env = calm;
  ticks = 0;
  spots = row1 ∷ row2 ∷ [];
  reservations = [];
  invoices = [];
  transactions = [];
  drivers = [];
  notices = [];
  locations = [];
  redis = [];
  published = [];
}
