-- ===== src/Gateway/Booking.antt =====
-- What CreateReservation and CheckIn of services/gateway/internal/handler/handler.go do with the
-- reservation service behind them.
use parkirpintar.Common.{
  ◌≡◌, ◌≢◌, refl, ◌+◌, ◌⊎◌, true, Option, none, some, ℕ, String, ◌⧺◌, ◌==◌, arith, eq_iff, eq_refl,
}
use parkirpintar.Common.Grpc.{Failure}
use parkirpintar.Table.{select, update, select-update}
use parkirpintar.World.{World, next_tick, ok, err, M, ◌>>=◌, map_err, now, new_uuid, call}
use parkirpintar.Reservation.Domain.{Row, SpotRow, Reservation, pending, confirmed, cancelled}
use parkirpintar.Reservation.Repository.{row_id, spot_key, join, get_reservation, update_cancelled}
use parkirpintar.Reservation.Usecase.{cancel_reservation}
use parkirpintar.Reservation.Handler.{
  domain_reservation_to_proto, domain_spot_to_proto, CheckInResponse, handle_cancel, handle_get,
}
use parkirpintar.Reservation.Outcomes.{release-SameTables, publish-SameTables}
use parkirpintar.Payment.Domain.{CustomerInfo}
use parkirpintar.Payment.Repository.{insert_transaction, get_by_idempotency_key}
use parkirpintar.Payment.Usecase.{new_transaction, create_fresh, create_transaction}
use parkirpintar.Payment.Charges.{create_codes-keeps}
use parkirpintar.Payment.Handler.{CreateResponse, handle_create}
use parkirpintar.Shared.Idempotency.{check, save}
use parkirpintar.Payment.Gateway.{Gateway}
use parkirpintar.Gateway.Client.{rpc}
use parkirpintar.Gateway.Confirmation.{
  invoice_id_of, insert_booking_row, insert_booking_fee, create_booking_fee_invoice,
}
use parkirpintar.Gateway.Handler.{
  pay_booking, invoice_failed, payment_failed, charge_booking, check_spot, check_in,
}
use mathlib.Core.Option

-- Where no call fails, a driver's cancellation of the driver's own waiting reservation cancels it.
pub cancel_reservation_cancels :
    (id driver : String) (r : Row) (s : SpotRow) (w : World)
    → ((n : ℕ) → w.env.fault n ≡ none)
    → select row_id id w.reservations ≡ some r
    → select spot_key r.spot_id w.spots ≡ some s
    → r.driver_id ≡ driver
    → (r.status ≡ pending) ⊎ (r.status ≡ confirmed)
    → (cancel_reservation id driver w).1.reservations
      ≡ update row_id id
          (λ x. record x { status = cancelled; cancelled_at = some (w.env.clock (w.ticks + 1)) })
          w.reservations
unfolding cancel_reservation get_reservation update_cancelled join now call
cancel_reservation_cancels id driver r s w up found at own waits = grind (
  arith,
  up w.ticks,
  up (w.ticks + 1 + 1),
  release-SameTables,
  publish-SameTables,
  eq_iff r.driver_id driver,
)

check_spot-same :
    (id actual : String) (w w' : World)
    → check_spot id actual w ≡ (ok tt, w')
    → actual ≢ ""
    → Option.map (λ r. r.spot.spot_id == actual) (join w.spots (select row_id id w.reservations))
      ≡ some true
unfolding check_spot rpc handle_get domain_reservation_to_proto domain_spot_to_proto get_reservation
    call
check_spot-same id actual w w' h named = ground (arith, eq_iff actual "")

same-spot :
    (actual : String) (found : Option Reservation)
    → Option.map (λ r. r.spot.spot_id == actual) found ≡ some true
    → Option.map (λ r. r.spot.spot_id) found ≡ some actual
same-spot actual none h = cc
same-spot actual (some r) h = ground (arith, eq_iff r.spot.spot_id actual)

check_in-checked :
    (user : Option String) (id actual : String) (a : CheckInResponse) (w w' : World)
    → check_in user id actual w ≡ (ok a, w')
    → check_spot id actual w ≡ (ok tt, (check_spot id actual w).1)
unfolding check_in
check_in-checked user id actual a w w' h = ground arith

-- A check-in at the gateway that names the spot where the driver stands, and succeeds, is at the
-- spot of the reservation.
pub check_in_spot :
    (user : Option String) (id actual : String) (a : CheckInResponse) (w w' : World)
    → check_in user id actual w ≡ (ok a, w')
    → actual ≢ ""
    → Option.map (λ r. r.spot.spot_id) (join w.spots (select row_id id w.reservations))
      ≡ some actual
check_in_spot user id actual a w w' h named =
    same-spot actual (join w.spots (select row_id id w.reservations)) (
      check_spot-same id actual w (check_spot id actual w).1
        (check_in-checked user id actual a w w' h) named)

-- Billing and paying touch no reservation and no spot.
create_booking_fee_invoice-keeps :
    (reservation driver key : String) (w : World)
    → let w' = (create_booking_fee_invoice reservation driver key w).1 in
      (w'.env ≡ w.env) × (w'.reservations ≡ w.reservations) × (w'.spots ≡ w.spots)
unfolding create_booking_fee_invoice invoice_id_of insert_booking_fee insert_booking_row new_uuid
    call
create_booking_fee_invoice-keeps reservation driver key w = ground arith

create_transaction-keeps :
    (gw : Gateway) (invoice driver key m : String) (amount : ℕ) (customer : CustomerInfo)
    (w : World)
    → let w' = (create_transaction gw invoice driver key m amount customer w).1 in
      (w'.env ≡ w.env) × (w'.reservations ≡ w.reservations) × (w'.spots ≡ w.spots)
unfolding create_transaction check get_by_idempotency_key create_fresh new_transaction
    insert_transaction save now new_uuid call
create_transaction-keeps gw invoice driver key m amount customer w =
    grind (arith, create_codes-keeps)

pay_booking-keeps :
    (gw : Gateway) (invoice driver key : String) (w : World)
    → let w' = (pay_booking gw invoice driver key w).1 in
      (w'.env ≡ w.env) × (w'.reservations ≡ w.reservations) × (w'.spots ≡ w.spots)
unfolding pay_booking rpc handle_create call
pay_booking-keeps gw invoice driver key w = grind (arith, create_transaction-keeps)

-- The invoice and the payment of the booking fee.
abbrev charge : Gateway → String → String → String → M Failure CreateResponse
charge gw reservation driver key =
    map_err invoice_failed (create_booking_fee_invoice reservation driver ("booking-" ⧺ key))
    >>= λ invoice. map_err payment_failed (pay_booking gw invoice driver key)

charge-keeps :
    (gw : Gateway) (reservation driver key : String) (w : World)
    → let w' = (charge gw reservation driver key w).1 in
      (w'.env ≡ w.env) × (w'.reservations ≡ w.reservations) × (w'.spots ≡ w.spots)
charge-keeps gw reservation driver key w =
    grind (arith, create_booking_fee_invoice-keeps, pay_booking-keeps)

-- The cancellation that follows a failed charge, where no call fails.
rpc-cancels :
    (id driver : String) (r : Row) (s : SpotRow) (w : World)
    → ((n : ℕ) → w.env.fault n ≡ none)
    → select row_id id w.reservations ≡ some r
    → select spot_key r.spot_id w.spots ≡ some s
    → r.driver_id ≡ driver
    → (r.status ≡ pending) ⊎ (r.status ≡ confirmed)
    → Option.map
        (λ (x : Row). x.status)
        (select row_id id (rpc (handle_cancel id driver) w).1.reservations)
      ≡ some cancelled
unfolding rpc handle_cancel call
rpc-cancels id driver r s w up found at own waits =
    let t = w.env.clock (w.ticks + 1 + 1) in
    ground (
      arith,
      up w.ticks,
      cancel_reservation_cancels id driver r s (next_tick w) up found at own waits,
      select-update row_id (λ x. record x { status = cancelled; cancelled_at = some t }) (λ x. refl)
          id id w.reservations,
      eq_refl id,
    )

-- A booking that cannot be charged does not stay. Where no call of a service, of the database or of
-- Redis fails, and the charge of the booking fee of a driver's own waiting reservation ends in an
-- error, of the payment provider or of a key that is taken, the reservation is cancelled; the README
-- has it as failed, which is no status of the code.
pub charge_booking_failure :
    (gw : Gateway) (id driver key : String) (r : Row) (s : SpotRow) (e : Failure) (w w' : World)
    → ((n : ℕ) → w.env.fault n ≡ none)
    → select row_id id w.reservations ≡ some r
    → select spot_key r.spot_id w.spots ≡ some s
    → r.driver_id ≡ driver
    → (r.status ≡ pending) ⊎ (r.status ≡ confirmed)
    → charge_booking gw id driver key w ≡ (err e, w')
    → Option.map (λ (x : Row). x.status) (select row_id id w'.reservations) ≡ some cancelled
unfolding charge_booking
charge_booking_failure gw id driver key r s e w w' up found at own waits h =
    let v = (charge gw id driver key w).1 in
    let (env, rows, spots) = charge-keeps gw id driver key w in
    let cancels = rpc-cancels id driver r s v (rw env up) (rw rows found) (rw spots at) own waits in
    ground (arith, cancels)
