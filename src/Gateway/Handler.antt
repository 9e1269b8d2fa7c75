-- ===== src/Gateway/Handler.antt =====
-- services/gateway/internal/handler/handler.go, the requests about reservations. The user is the one
-- of the context; the spot of a response is always set. Money is whole IDR.
use parkirpintar.Common.{ℕ, Bool, Option, none, some, String, ◌⧺◌, ◌==◌, if◌then◌else◌}
use parkirpintar.Common.Int.{ℤ}
use parkirpintar.Common.Time.{Time}
use parkirpintar.Common.Grpc.{Failure, status_error, failed_precondition}
use parkirpintar.World.{M, ok, pure, ◌>>=◌, ◌>>◌, guard, map_err, on_error}
use parkirpintar.Reservation.Handler.{
  ProtoVehicle, ProtoMode, ProtoSpot, ProtoStatus, ProtoReservation, CheckInResponse,
  handle_availability, handle_create, handle_get_active, handle_cancel, handle_get, handle_check_in,
  handle_check_out,
}
use parkirpintar.Billing.Handler.{handle_generate}
use parkirpintar.Payment.Gateway.{Gateway}
use parkirpintar.Payment
use parkirpintar.Payment.Handler.{method_qris}
use parkirpintar.Gateway.Client.{user_of, rpc, error_text}
use parkirpintar.Gateway.Bills.{InvoiceSummary, summary_of}
use parkirpintar.Gateway.Confirmation.{create_booking_fee_invoice}

-- Vehicle type, total capacity, available spots, and whether there is one.
unfoldable pub get_parking_availability : ProtoVehicle → M Failure (ProtoVehicle × ℕ × ℕ × Bool)
get_parking_availability vehicle = do
  resp ← rpc (handle_availability vehicle)
  pure (resp.vehicle_type, resp.total_capacity, resp.available_spots, resp.is_available)

-- The fields of CreateReservationRequest but for the driver, who is the user.
pub record CreateRequest : Type 0 where
  pub vehicle_type : ProtoVehicle
  pub assignment_mode : ProtoMode
  pub spot_id : String
  pub idempotency_key : String

pub record CreateAnswer : Type 0 where
  pub reservation_id : String
  pub spot : ProtoSpot
  pub status : ProtoStatus
  pub confirmed_at : Time
  pub expires_at : Time
  pub booking_fee : ℕ
  pub navigation_floor : ℕ
  pub navigation_spot : ℕ
  pub direction : String

-- The call of CreateTransaction: 5000 IDR by QRIS.
unfoldable pub pay_booking :
    Gateway → String → String → String → M Failure Payment.Handler.CreateResponse
pay_booking gw invoice driver key = rpc (
    Payment.Handler.handle_create gw invoice driver ("pay-booking-" ⧺ key) method_qris (some 5000)
      none)

abbrev pub invoice_failed : String → Failure
invoice_failed e = status_error failed_precondition ("booking fee invoice failed: " ⧺ e)

abbrev pub payment_failed : Failure → Failure
payment_failed e = status_error failed_precondition ("booking fee payment failed: " ⧺ error_text e)

-- The invoice and the payment of the booking fee of a reservation; after an error of either, the
-- reservation is cancelled, and an error of that is dropped.
unfoldable pub charge_booking :
    Gateway → String → String → String → M Failure Payment.Handler.CreateResponse
charge_booking gw reservation driver key =
    on_error
      (map_err invoice_failed (create_booking_fee_invoice reservation driver ("booking-" ⧺ key))
        >>= λ invoice. map_err payment_failed (pay_booking gw invoice driver key))
      (rpc (handle_cancel reservation driver))

unfoldable pub create_reservation : Gateway → Option String → CreateRequest → M Failure CreateAnswer
create_reservation gw user req = do
  driver ← user_of user
  resp ←
      rpc
        (handle_create driver req.idempotency_key req.vehicle_type req.assignment_mode req.spot_id)
  paid ← charge_booking gw resp.reservation_id driver req.idempotency_key
  pure (record {
    reservation_id = resp.reservation_id;
    spot = resp.spot;
    status = resp.status;
    confirmed_at = resp.confirmed_at;
    expires_at = resp.expires_at;
    booking_fee = 5000;
    navigation_floor = resp.spot.floor;
    navigation_spot = resp.spot.number;
    direction = paid.qr_string ⧺ "|" ⧺ paid.transaction_id;
  })

-- The instant of a cancellation is shown as that of the check-in.
pub record MyReservation : Type 0 where
  pub reservation_id : String
  pub spot : ProtoSpot
  pub status : ProtoStatus
  pub confirmed_at : Time
  pub expires_at : Time
  pub session_id : String
  pub check_in_at : Option Time

abbrev my_reservation : ProtoReservation → MyReservation
my_reservation r = record {
  reservation_id = r.reservation_id;
  spot = r.spot;
  status = r.status;
  confirmed_at = r.confirmed_at;
  expires_at = r.expires_at;
  session_id = r.session_id;
  check_in_at = r.cancelled_at;
}

-- `none` is the answer with HasActiveReservation false.
unfoldable pub get_my_reservation : Option String → M Failure (Option MyReservation)
get_my_reservation user = do
  driver ← user_of user
  found ← rpc (handle_get_active driver)
  elim found [ none ↦ pure none | some r ↦ pure (some (my_reservation r)) ]

-- The reservation, its status, the fee and the reason.
unfoldable pub cancel_reservation :
    Option String → String → M Failure (String × ProtoStatus × ℕ × String)
cancel_reservation user id = do
  driver ← user_of user
  resp ← rpc (handle_cancel id driver)
  pure (resp.reservation_id, resp.status, resp.cancellation_fee, resp.fee_reason)

-- The spot at which the driver stands is checked where the request names it.
unfoldable pub check_spot : String → String → M Failure (Unit {0})
check_spot id actual w =
    if actual == ""
    then (ok tt, w)
    else (rpc (handle_get id) >>= λ r.
          guard (r.spot.spot_id == actual)
            (status_error failed_precondition "wrong spot: actual spot does not match booked spot"))
        w

unfoldable pub check_in : Option String → String → String → M Failure CheckInResponse
check_in user id actual = do
  driver ← user_of user
  check_spot id actual
  rpc (handle_check_in id driver)

pub record CheckOutAnswer : Type 0 where
  pub session_id : String
  pub check_out_at : Time
  pub duration_minutes : ℤ
  pub invoice_id : String
  pub invoice_summary : InvoiceSummary

-- The invoice is asked for from the instant at which the reservation was confirmed.
unfoldable pub check_out : Option String → String → String → M Failure CheckOutAnswer
check_out user id key = do
  driver ← user_of user
  resp ← rpc (handle_check_out id driver key)
  detail ← rpc (handle_get id)
  inv ← rpc (
      handle_generate resp.session_id id driver ("inv-" ⧺ key) detail.confirmed_at
        resp.check_out_at)
  pure (record {
    session_id = resp.session_id;
    check_out_at = resp.check_out_at;
    duration_minutes = resp.duration_minutes;
    invoice_id = inv.invoice_id;
    invoice_summary = summary_of inv;
  })
