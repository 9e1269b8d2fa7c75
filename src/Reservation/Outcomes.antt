-- ===== src/Reservation/Outcomes.antt =====
-- What ConfirmReservation, CancelReservation, CheckIn and CheckOut of
-- services/reservation/internal/usecase/usecase.go leave behind, by how they end.
use parkirpintar.Common.{ℕ, ◌≡◌, ◌+◌, ◌⊎◌, ◌≤◌, some, String, arith, eq_iff, false}
use parkirpintar.World.{World, ok, err, now, new_uuid, call}
use parkirpintar.Table.{select, update}
use parkirpintar.Pricing.{calculate_cancellation_fee}
use parkirpintar.Reservation.Domain.{
  Row, Reservation, pending, confirmed, active, completed, cancelled, hold_duration,
}
use parkirpintar.Reservation.Repository.{
  row_id, get_reservation, update_confirmed, update_check_in, update_check_out, update_cancelled,
}
use parkirpintar.Reservation.Publisher.{publish}
use parkirpintar.Reservation.Usecase.{
  confirm_reservation, cancel_reservation, cancel_fee, check_in, check_out_fresh,
}
use parkirpintar.Shared.Lock.{acquire, release}
use parkirpintar.Shared.Idempotency.{save}

-- The tables, the keys of Redis and the messages are the same.
abbrev pub Untouched : World → World → Type 0
Untouched w w' =
    (w'.spots ≡ w.spots)
    × (w'.reservations ≡ w.reservations)
    × (w'.invoices ≡ w.invoices)
    × (w'.transactions ≡ w.transactions)
    × (w'.redis ≡ w.redis)
    × (w'.published ≡ w.published)
    × (w'.drivers ≡ w.drivers)
    × (w'.notices ≡ w.notices)
    × (w'.locations ≡ w.locations)

-- The tables of the bookings are the same.
abbrev pub SameTables : World → World → Type 0
SameTables w w' =
    (w'.spots ≡ w.spots)
    × (w'.reservations ≡ w.reservations)
    × (w'.invoices ≡ w.invoices)
    × (w'.transactions ≡ w.transactions)

pub release-SameTables : (key value : String) (w : World) → SameTables w (release key value w).1
unfolding release call
release-SameTables key value w = ground arith

pub acquire-SameTables :
    (key value : String) (ttl : ℕ) (w : World) → SameTables w (acquire key value ttl w).1
unfolding acquire call
acquire-SameTables key value ttl w = ground arith

pub save-SameTables :
    (key value : String) (ttl : ℕ) (w : World) → SameTables w (save key value ttl w).1
unfolding save call
save-SameTables key value ttl w = ground arith

pub publish-SameTables :
    (event : String) (r : Reservation) (w : World) → SameTables w (publish event r w).1
unfolding publish now call
publish-SameTables event r w = ground arith

pub ruleset frames =
    (arith, release-SameTables, acquire-SameTables, save-SameTables, publish-SameTables)

-- A confirmation that succeeds found the reservation pending, and makes it confirmed, held for one
-- hour from the instant of the confirmation; no other table changes.
pub confirm_reservation_success :
    (id : String) (w w' : World) (r : Reservation)
    → confirm_reservation id w ≡ (ok r, w')
    → (row : Row) × (select row_id id w.reservations ≡ some row)
      × (row.status ≡ pending)
      × (r.expires_at ≡ r.confirmed_at + hold_duration)
      × (w'.reservations
          ≡ update row_id id
              (λ x. record x {
                status = confirmed;
                confirmed_at = r.confirmed_at;
                expires_at = r.expires_at;
              })
              w.reservations)
      × (w'.spots ≡ w.spots)
      × (w'.invoices ≡ w.invoices)
      × (w'.transactions ≡ w.transactions)
unfolding confirm_reservation get_reservation update_confirmed now call acquire publish
confirm_reservation_success id w w' r h = ground arith

-- A confirmation that fails changes nothing.
pub confirm_reservation_failure :
    (id : String) (w w' : World) (e : String)
    → confirm_reservation id w ≡ (err e, w')
    → Untouched w w'
unfolding confirm_reservation get_reservation update_confirmed now call acquire publish
confirm_reservation_failure id w w' e h = ground arith

-- A cancellation that succeeds found the driver's own reservation pending or confirmed, makes it
-- cancelled at the instant that the clock shows after the row is read, changes no other table, and
-- returns that instant and the fee that CalculateCancellationFee of pkg/pricing computes for it from
-- the row's time of confirmation.
pub cancel_reservation_success :
    (id driver : String) (w w' : World) (r : Reservation) (fee : ℕ)
    → cancel_reservation id driver w ≡ (ok (r, fee), w')
    → (row : Row) × (select row_id id w.reservations ≡ some row)
      × (row.driver_id ≡ driver)
      × ((row.status ≡ pending) ⊎ (row.status ≡ confirmed))
      × (w'.reservations
          ≡ update row_id id
              (λ x. record x { status = cancelled; cancelled_at = r.cancelled_at })
              w.reservations)
      × (w'.spots ≡ w.spots)
      × (w'.invoices ≡ w.invoices)
      × (w'.transactions ≡ w.transactions)
      × (r.cancelled_at ≡ some (w.env.clock (w.ticks + 1)))
      × (fee ≡ calculate_cancellation_fee row.confirmed_at (w.env.clock (w.ticks + 1)) false)
unfolding cancel_reservation cancel_fee calculate_cancellation_fee get_reservation update_cancelled
    now call release publish
cancel_reservation_success id driver w w' r fee h = ground (arith, eq_iff r.driver_id driver)

-- The fee of a cancellation is the one that the pricing engine computes for a driver who shows up.
pub cancel_fee-pricing :
    (at : ℕ) (r : Reservation)
    → cancel_fee at r ≡ calculate_cancellation_fee r.confirmed_at at false
unfolding cancel_fee calculate_cancellation_fee
cancel_fee-pricing at r = ground arith

-- A cancellation that fails changes nothing.
pub cancel_reservation_failure :
    (id driver : String) (w w' : World) (e : String)
    → cancel_reservation id driver w ≡ (err e, w')
    → Untouched w w'
unfolding cancel_reservation get_reservation update_cancelled now call release publish
cancel_reservation_failure id driver w w' e h = ground arith

-- A check-in that succeeds found the driver's own reservation confirmed and its hold not over at
-- the first reading of the clock, and makes it active under the returned session.
pub check_in_success :
    (id driver : String) (w w' : World) (r : Reservation)
    → check_in id driver w ≡ (ok r, w')
    → (row : Row) × (select row_id id w.reservations ≡ some row)
      × (row.driver_id ≡ driver)
      × (row.status ≡ confirmed)
      × (w.env.clock (w.ticks + 1) ≤ row.expires_at)
      × (w'.reservations
          ≡ update row_id id
              (λ x. record x {
                status = active;
                session_id = some r.session_id;
                check_in_at = r.check_in_at;
              })
              w.reservations)
      × (w'.redis ≡ w.redis)
      × (w'.spots ≡ w.spots)
      × (w'.invoices ≡ w.invoices)
      × (w'.transactions ≡ w.transactions)
unfolding check_in get_reservation update_check_in now new_uuid call publish
check_in_success id driver w w' r h = ground (arith, eq_iff r.driver_id driver)

-- A check-in that fails changes nothing.
pub check_in_failure :
    (id driver : String) (w w' : World) (e : String)
    → check_in id driver w ≡ (err e, w')
    → Untouched w w'
unfolding check_in get_reservation update_check_in now new_uuid call publish
check_in_failure id driver w w' e h = ground arith

-- A check-out past the idempotency check that succeeds found the driver's own reservation active,
-- and makes it completed at the returned instant.
pub check_out_fresh_success :
    (id driver key : String) (w w' : World) (r : Reservation)
    → check_out_fresh id driver key w ≡ (ok r, w')
    → (row : Row) × (select row_id id w.reservations ≡ some row)
      × (row.driver_id ≡ driver)
      × (row.status ≡ active)
      × (w'.reservations
          ≡ update row_id id
              (λ x. record x { status = completed; check_out_at = r.check_out_at })
              w.reservations)
      × (w'.spots ≡ w.spots)
      × (w'.invoices ≡ w.invoices)
      × (w'.transactions ≡ w.transactions)
unfolding check_out_fresh get_reservation update_check_out now call
check_out_fresh_success id driver key w w' r h = grind (frames, eq_iff r.driver_id driver)

-- A check-out that fails changes nothing.
pub check_out_fresh_failure :
    (id driver key : String) (w w' : World) (e : String)
    → check_out_fresh id driver key w ≡ (err e, w')
    → Untouched w w'
unfolding check_out_fresh get_reservation update_check_out now call release save publish
check_out_fresh_failure id driver key w w' e h = ground arith
