-- ===== src/Reservation/Publisher.antt =====
-- services/reservation/internal/publisher/publisher.go, with `Publish` of pkg/mq/mq.go.
use parkirpintar.Common.{◌∷◌, String}
use parkirpintar.World.{M, ReservationEvent, ◌>>=◌, modify, now, call}
use parkirpintar.Reservation.Domain.{VehicleType, car, motorcycle, status_text, Reservation}

abbrev pub reservation_confirmed_event : String
reservation_confirmed_event = "reservation.confirmed"

abbrev pub reservation_expired_event : String
reservation_expired_event = "reservation.expired"

abbrev pub reservation_cancelled_event : String
reservation_cancelled_event = "reservation.cancelled"

abbrev pub check_in_detected_event : String
check_in_detected_event = "checkin.detected"

abbrev pub check_out_completed_event : String
check_out_completed_event = "checkout.completed"

abbrev pub vehicle_text : VehicleType → String
vehicle_text car = "car"
vehicle_text motorcycle = "motorcycle"

abbrev pub from_domain : Reservation → ReservationEvent
from_domain r = record {
  reservation_id = r.reservation_id;
  driver_id = r.driver_id;
  spot_id = r.spot.spot_id;
  floor = r.spot.floor;
  spot_number = r.spot.spot_number;
  vehicle_type = vehicle_text r.spot.vehicle_type;
  session_id = r.session_id;
  status = status_text r.status;
}

-- The newest message is the first of `published`.
unfoldable pub publish : String → Reservation → M String (Unit {0})
publish event r = do
  at ← now
  _ ← call
  modify (λ w. record w {
    published = record { event = event; timestamp = at; payload = from_domain r } ∷ w.published;
  })
