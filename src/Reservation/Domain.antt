-- ===== src/Reservation/Domain.antt =====
-- services/reservation/internal/domain/domain.go, and the rows of the tables `spots` and
-- `reservations` of migrations/.
use parkirpintar.Common.{ℕ, ◌*◌, Bool, true, false, Option, String}
use parkirpintar.Common.Time.{Time, hour, minute}

pub data VehicleType : Type 0 where
  car motorcycle : VehicleType

pub data AssignmentMode : Type 0 where
  system user_selected : AssignmentMode

pub data ReservationStatus : Type 0 where
  pending confirmed active completed cancelled expired : ReservationStatus

pub data SpotStatus : Type 0 where
  available reserved occupied maintenance : SpotStatus

-- string(status), as it stands in messages.
unfoldable pub status_text : ReservationStatus → String
status_text pending = "pending"
status_text confirmed = "confirmed"
status_text active = "active"
status_text completed = "completed"
status_text cancelled = "cancelled"
status_text expired = "expired"

abbrev pub status_eq : ReservationStatus → ReservationStatus → Bool
status_eq pending pending = true
status_eq confirmed confirmed = true
status_eq active active = true
status_eq completed completed = true
status_eq cancelled cancelled = true
status_eq expired expired = true
status_eq _ _ = false

abbrev pub vehicle_eq : VehicleType → VehicleType → Bool
vehicle_eq car car = true
vehicle_eq motorcycle motorcycle = true
vehicle_eq _ _ = false

abbrev pub is_available : SpotStatus → Bool
is_available available = true
is_available _ = false

abbrev pub hold_duration : ℕ
hold_duration = hour

abbrev pub payment_timeout : ℕ
payment_timeout = 5 * minute

pub record Spot : Type 0 where
  pub spot_id : String
  pub floor : ℕ
  pub spot_number : ℕ
  pub vehicle_type : VehicleType

pub record Reservation : Type 0 where
  pub reservation_id : String
  pub driver_id : String
  pub spot : Spot
  pub status : ReservationStatus
  pub assignment_mode : AssignmentMode
  pub confirmed_at : Time
  pub expires_at : Time
  pub check_in_at : Option Time
  pub check_out_at : Option Time
  pub cancelled_at : Option Time
  pub session_id : String
  pub idempotency_key : String

-- A row of `spots`.
pub record SpotRow : Type 0 where
  pub spot : Spot
  pub status : SpotStatus

-- A row of `reservations`: the spot is a foreign key, the session may be NULL.
pub record Row : Type 0 where
  pub id : String
  pub driver_id : String
  pub spot_id : String
  pub status : ReservationStatus
  pub assignment_mode : AssignmentMode
  pub idempotency_key : String
  pub confirmed_at : Time
  pub expires_at : Time
  pub check_in_at : Option Time
  pub check_out_at : Option Time
  pub cancelled_at : Option Time
  pub session_id : Option String
