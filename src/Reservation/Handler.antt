-- ===== src/Reservation/Handler.antt =====
-- services/reservation/internal/handler/handler.go. A request is its fields; a message of
-- gen/common/v1 that is a pointer is its value, where the code always sets it. Money is whole IDR.
use parkirpintar.Common.{
  ℕ, Bool, true, false, ◌||◌, List, map, Option, none, some, String, ◌==◌, eqb, ltb, if◌then◌else◌,
}
use parkirpintar.Common.Int.{ℤ}
use parkirpintar.Common.Time.{Time, sub_time, minutes}
use parkirpintar.Common.Grpc.{
  Failure, status_error, nil_dereference, Code, invalid_argument, not_found, permission_denied,
  resource_exhausted, failed_precondition, internal, contains,
}
use parkirpintar.World.{M, pure, or_fail, ◌>>=◌, ◌>>◌, guard, map_err}
use parkirpintar.Reservation.Domain.{
  VehicleType, car, motorcycle, AssignmentMode, system, user_selected, ReservationStatus, confirmed,
  active, completed, cancelled, expired, Spot, Reservation,
}
use parkirpintar.Reservation.Repository.{
  get_reservation, get_active_reservation, list_available_spots,
}
use parkirpintar.Reservation.Usecase.{
  create_reservation, cancel_reservation, check_in, check_out, get_availability,
}

-- The enums of gen/common/v1.
pub data ProtoVehicle : Type 0 where
  vehicle_unspecified vehicle_car vehicle_motorcycle : ProtoVehicle

pub data ProtoMode : Type 0 where
  mode_unspecified mode_system mode_user_selected : ProtoMode

pub data ProtoStatus : Type 0 where
  status_unspecified status_pending status_confirmed status_active status_completed status_cancelled
        status_expired :
      ProtoStatus

unfoldable pub proto_to_vehicle_type : ProtoVehicle → VehicleType
proto_to_vehicle_type vehicle_motorcycle = motorcycle
proto_to_vehicle_type _ = car

unfoldable pub proto_to_assignment_mode : ProtoMode → AssignmentMode
proto_to_assignment_mode mode_user_selected = user_selected
proto_to_assignment_mode _ = system

unfoldable pub domain_status_to_proto : ReservationStatus → ProtoStatus
domain_status_to_proto confirmed = status_confirmed
domain_status_to_proto active = status_active
domain_status_to_proto completed = status_completed
domain_status_to_proto cancelled = status_cancelled
domain_status_to_proto expired = status_expired
domain_status_to_proto _ = status_unspecified

pub record ProtoSpot : Type 0 where
  pub spot_id : String
  pub floor : ℕ
  pub number : ℕ
  pub vehicle_type : ProtoVehicle

unfoldable pub domain_spot_to_proto : Spot → ProtoSpot
domain_spot_to_proto s = record {
  spot_id = s.spot_id;
  floor = s.floor;
  number = s.spot_number;
  vehicle_type = elim s.vehicle_type [ motorcycle ↦ vehicle_motorcycle | car ↦ vehicle_car ];
}

pub record ProtoReservation : Type 0 where
  pub reservation_id : String
  pub driver_id : String
  pub spot : ProtoSpot
  pub status : ProtoStatus
  pub confirmed_at : Time
  pub expires_at : Time
  pub session_id : String
  pub cancelled_at : Option Time

unfoldable pub domain_reservation_to_proto : Reservation → ProtoReservation
domain_reservation_to_proto r = record {
  reservation_id = r.reservation_id;
  driver_id = r.driver_id;
  spot = domain_spot_to_proto r.spot;
  status = domain_status_to_proto r.status;
  confirmed_at = r.confirmed_at;
  expires_at = r.expires_at;
  session_id = r.session_id;
  cancelled_at = r.cancelled_at;
}

-- The code of an error's message.
unfoldable pub to_grpc_code : String → Code
unfolding contains
to_grpc_code msg =
    if contains msg "no rows in result set" || contains msg "not found"
    then not_found
    else if contains msg "cannot be cancelled"
        || contains msg "cannot confirm"
        || contains msg "cannot check in"
        || contains msg "cannot check out"
    then failed_precondition
    else if msg == "spot unavailable" || msg == "no available spot"
    then resource_exhausted
    else if msg == "reservation not owned by driver"
    then permission_denied
    else if msg == "reservation expired"
    then failed_precondition
    else internal

abbrev pub to_grpc_error : String → Failure
to_grpc_error msg = status_error (to_grpc_code msg) msg

-- *p, of a pointer that may be nil.
abbrev deref : {A : Type 0} → Option A → M Failure A
deref p = or_fail p nil_dereference

abbrev require_key : String → M Failure (Unit {0})
require_key key =
    guard (if key == "" then false else true)
      (status_error invalid_argument "idempotency_key is required")

pub record CreateResponse : Type 0 where
  pub reservation_id : String
  pub spot : ProtoSpot
  pub status : ProtoStatus
  pub confirmed_at : Time
  pub expires_at : Time
  pub booking_fee : ℕ

unfoldable pub handle_create :
    String → String → ProtoVehicle → ProtoMode → String → M Failure CreateResponse
handle_create driver key vehicle mode spot_id = do
  require_key key
  r ← map_err to_grpc_error (
      create_reservation driver key (proto_to_vehicle_type vehicle) (proto_to_assignment_mode mode)
        spot_id)
  pure (record {
    reservation_id = r.reservation_id;
    spot = domain_spot_to_proto r.spot;
    status = domain_status_to_proto r.status;
    confirmed_at = r.confirmed_at;
    expires_at = r.expires_at;
    booking_fee = 5000;
  })

pub record CancelResponse : Type 0 where
  pub reservation_id : String
  pub status : ProtoStatus
  pub cancellation_fee : ℕ
  pub cancelled_at : Time
  pub fee_reason : String

unfoldable pub handle_cancel : String → String → M Failure CancelResponse
handle_cancel id driver = do
  (r, fee) ← map_err to_grpc_error (cancel_reservation id driver)
  at ← deref r.cancelled_at
  pure (record {
    reservation_id = r.reservation_id;
    status = domain_status_to_proto r.status;
    cancellation_fee = fee;
    cancelled_at = at;
    fee_reason =
        if eqb fee 0
        then "cancelled within 2 minutes of confirmation"
        else "cancelled after 2 minutes of confirmation";
  })

unfoldable pub handle_get : String → M Failure ProtoReservation
handle_get id = do
  r ← map_err to_grpc_error (get_reservation id)
  pure (domain_reservation_to_proto r)

-- `none` is the answer with HasActive false.
unfoldable pub handle_get_active : String → M Failure (Option ProtoReservation)
handle_get_active driver = do
  found ← map_err to_grpc_error (get_active_reservation driver)
  elim found [ none ↦ pure none | some r ↦ pure (some (domain_reservation_to_proto r)) ]

pub record CheckInResponse : Type 0 where
  pub reservation_id : String
  pub session_id : String
  pub status : ProtoStatus
  pub check_in_at : Time

unfoldable pub handle_check_in : String → String → M Failure CheckInResponse
handle_check_in id driver = do
  r ← map_err to_grpc_error (check_in id driver)
  at ← deref r.check_in_at
  pure (record {
    reservation_id = r.reservation_id;
    session_id = r.session_id;
    status = domain_status_to_proto r.status;
    check_in_at = at;
  })

pub record CheckOutResponse : Type 0 where
  pub reservation_id : String
  pub session_id : String
  pub status : ProtoStatus
  pub check_out_at : Time
  pub duration_minutes : ℤ

unfoldable pub handle_check_out : String → String → String → M Failure CheckOutResponse
handle_check_out id driver key = do
  require_key key
  r ← map_err to_grpc_error (check_out id driver key)
  left ← deref r.check_out_at
  came ← deref r.check_in_at
  pure (record {
    reservation_id = r.reservation_id;
    session_id = r.session_id;
    status = domain_status_to_proto r.status;
    check_out_at = left;
    duration_minutes = minutes (sub_time left came);
  })

pub record AvailabilityResponse : Type 0 where
  pub vehicle_type : ProtoVehicle
  pub total_capacity : ℕ
  pub available_spots : ℕ
  pub occupied_spots : ℤ
  pub reserved_spots : ℕ
  pub is_available : Bool

unfoldable pub handle_availability : ProtoVehicle → M Failure AvailabilityResponse
handle_availability vehicle = do
  (total, free, occupied, reserved) ←
      map_err to_grpc_error (get_availability (proto_to_vehicle_type vehicle))
  pure (record {
    vehicle_type = vehicle;
    total_capacity = total;
    available_spots = free;
    occupied_spots = occupied;
    reserved_spots = reserved;
    is_available = ltb 0 free;
  })

-- Each spot is listed as available.
unfoldable pub handle_list : ProtoVehicle → ℕ → M Failure (List (ProtoSpot × Bool))
handle_list vehicle floor = do
  spots ← map_err to_grpc_error (list_available_spots (proto_to_vehicle_type vehicle) floor)
  pure (map (λ s. (domain_spot_to_proto s, true)) spots)
