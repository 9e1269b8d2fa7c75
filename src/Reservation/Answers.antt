-- ===== src/Reservation/Answers.antt =====
-- What the handlers of services/reservation/internal/handler/handler.go answer.
use parkirpintar.Common.{◌+◌, ◌≡◌, refl, false, none, some, String, ◌⧺◌, ◌==◌, arith, ltb}
use parkirpintar.Common.Int.{pos_part, neg_part}
use parkirpintar.Common.Grpc.{
  not_found, permission_denied, resource_exhausted, failed_precondition, nil_dereference,
}
use parkirpintar.Table.{select}
use parkirpintar.World.{World, ok, err, call}
use parkirpintar.Shared.Lock.{redis_get}
use parkirpintar.Shared.Idempotency.{check}
use parkirpintar.Reservation.Domain.{
  ReservationStatus, pending, confirmed, active, completed, cancelled, expired, status_text, Row,
  SpotRow,
}
use parkirpintar.Reservation.Repository.{row_id, spot_key, get_reservation, count_available}
use parkirpintar.Reservation.Usecase.{idempotency_entry, check_out, get_availability, capacity}
use parkirpintar.Reservation.Handler.{
  ProtoVehicle, to_grpc_code, proto_to_vehicle_type, handle_check_out, handle_availability,
  AvailabilityResponse,
}

-- The code that each refusal of the use cases is answered with, for every status in its message.
pub to_grpc_code_table :
    (s : ReservationStatus)
    → (to_grpc_code ("cannot check in: status is " ⧺ status_text s) ≡ failed_precondition)
      × (to_grpc_code ("cannot check out: status is " ⧺ status_text s) ≡ failed_precondition)
      × (to_grpc_code ("cannot confirm: status is " ⧺ status_text s) ≡ failed_precondition)
      × (to_grpc_code ("reservation cannot be cancelled in status " ⧺ status_text s)
          ≡ failed_precondition)
      × (to_grpc_code "reservation not owned by driver" ≡ permission_denied)
      × (to_grpc_code "reservation expired" ≡ failed_precondition)
      × (to_grpc_code "spot unavailable" ≡ resource_exhausted)
      × (to_grpc_code "no available spot" ≡ resource_exhausted)
      × (to_grpc_code "get reservation: scan reservation: no rows in result set" ≡ not_found)
unfolding to_grpc_code status_text
to_grpc_code_table pending = (refl, refl, refl, refl, refl, refl, refl, refl, refl)
to_grpc_code_table confirmed = (refl, refl, refl, refl, refl, refl, refl, refl, refl)
to_grpc_code_table active = (refl, refl, refl, refl, refl, refl, refl, refl, refl)
to_grpc_code_table completed = (refl, refl, refl, refl, refl, refl, refl, refl, refl)
to_grpc_code_table cancelled = (refl, refl, refl, refl, refl, refl, refl, refl, refl)
to_grpc_code_table expired = (refl, refl, refl, refl, refl, refl, refl, refl, refl)

-- A check-out whose idempotency key is cached and whose reservation is in the table without a
-- check-out dereferences a nil pointer, where no call fails: so the key of the creation, used again
-- for the check-out, never checks the reservation out.
pub handle_check_out_cached :
    (id driver key cached : String) (r : Row) (s : SpotRow) (w : World)
    → (key == "") ≡ false
    → w.env.fault w.ticks ≡ none
    → w.env.fault (w.ticks + 1) ≡ none
    → redis_get (idempotency_entry key) (w.env.clock w.ticks) w.redis ≡ some cached
    → select row_id id w.reservations ≡ some r
    → select spot_key r.spot_id w.spots ≡ some s
    → r.check_out_at ≡ none
    → ((handle_check_out id driver key w).0 ≡ err nil_dereference)
      × ((handle_check_out id driver key w).1.reservations ≡ w.reservations)
unfolding handle_check_out check_out check get_reservation call
handle_check_out_cached id driver key cached r s w nonempty up up' hit found known left =
    ground arith

-- The availability answered counts every spot of the vehicle type as available or occupied, none
-- as reserved, and says that there is room exactly when a spot is available.
pub handle_availability_sum :
    (v : ProtoVehicle) (w w' : World) (a : AvailabilityResponse)
    → handle_availability v w ≡ (ok a, w')
    → (a.total_capacity ≡ capacity (proto_to_vehicle_type v))
      × (a.available_spots + pos_part a.occupied_spots
          ≡ a.total_capacity + neg_part a.occupied_spots)
      × (a.reserved_spots ≡ 0)
      × (a.is_available ≡ ltb 0 a.available_spots)
unfolding handle_availability get_availability count_available call
handle_availability_sum v w w' a h = ground arith
