-- ===== src/Reservation/Usecase.antt =====
-- services/reservation/internal/usecase/usecase.go. The log lines are left out.
use parkirpintar.Common.{
  ℕ, ◌+◌, ◌*◌, true, false, ◌||◌, List, [], ◌∷◌, Option, none, some, String, ◌⧺◌, ◌==◌, ltb,
  if◌then◌else◌,
}
use parkirpintar.Common.Int.{ℤ, pos, leb_ℤ, sub_ℕ}
use parkirpintar.Common.Time.{Time, minute, sub_time}
use parkirpintar.World.{
  ok, err, M, pure, or_fail, ◌>>=◌, ◌>>◌, guard, wrap, quiet, on_error, attempt, now, new_uuid,
}
use parkirpintar.Shared.Lock.{acquire, release}
use parkirpintar.Shared.Idempotency.{check, save, default_ttl}
use parkirpintar.Reservation.Domain.{
  VehicleType, car, motorcycle, AssignmentMode, system, user_selected, pending, confirmed, active,
  completed, cancelled, expired, status_eq, status_text, hold_duration, payment_timeout, Spot,
  Reservation,
}
use parkirpintar.Reservation.Repository.{
  insert_reservation, get_reservation, get_by_idempotency_key, update_status, update_confirmed,
  update_check_in, update_check_out, update_cancelled, find_available_spot, get_spot,
  count_available, list_expired_reservations,
}
use parkirpintar.Reservation.Publisher.{
  publish, reservation_confirmed_event, reservation_expired_event, reservation_cancelled_event,
  check_in_detected_event, check_out_completed_event,
}

unfoldable pub spot_lock_key : String → String
spot_lock_key spot_id = "spot:" ⧺ spot_id ⧺ ":lock"

unfoldable pub idempotency_entry : String → String
idempotency_entry key = "idempotency:" ⧺ key

unfoldable pub choose_spot : AssignmentMode → VehicleType → String → M String (Option Spot)
choose_spot user_selected vt spot_id = wrap "get spot: " (get_spot spot_id)
choose_spot system vt spot_id = wrap "find available spot: " (find_available_spot vt)

-- The value that CreateReservation inserts.
abbrev pub new_reservation : String → String → String → AssignmentMode → Spot → Time → Reservation
new_reservation id driver_id key mode spot at = record {
  reservation_id = id;
  driver_id = driver_id;
  spot = spot;
  status = pending;
  assignment_mode = mode;
  confirmed_at = at;
  expires_at = at + payment_timeout;
  check_in_at = none;
  check_out_at = none;
  cancelled_at = none;
  session_id = "";
  idempotency_key = key;
}

-- CreateReservation from the lock on, the spot being chosen.
unfoldable pub reserve_spot : String → String → AssignmentMode → Spot → M String Reservation
reserve_spot driver_id key mode spot = do
  id ← new_uuid
  acquired ← wrap "acquire lock: " (acquire (spot_lock_key spot.spot_id) id payment_timeout)
  guard acquired "spot unavailable"
  at ← now
  let r = new_reservation id driver_id key mode spot at
  on_error (wrap "insert reservation: " (insert_reservation r))
      (release (spot_lock_key spot.spot_id) id)
  quiet (save (idempotency_entry key) id default_ttl)
  pure r

-- CreateReservation past the idempotency check.
unfoldable pub create_fresh :
    String → String → VehicleType → AssignmentMode → String → M String Reservation
create_fresh driver_id key vt mode spot_id = do
  choice ← choose_spot mode vt spot_id
  spot ← or_fail choice "no available spot"
  reserve_spot driver_id key mode spot

unfoldable pub create_reservation :
    String → String → VehicleType → AssignmentMode → String → M String Reservation
create_reservation driver_id key vt mode spot_id = do
  cached ← wrap "idempotency check: " (check (idempotency_entry key))
  elim cached [
    | some _ ↦ get_by_idempotency_key key
    | none ↦ create_fresh driver_id key vt mode spot_id
  ]

-- The error of `acquire`, and whether it acquired, are dropped.
unfoldable pub confirm_reservation : String → M String Reservation
confirm_reservation id = do
  r ← wrap "get reservation: " (get_reservation id)
  guard (status_eq r.status pending) ("cannot confirm: status is " ⧺ status_text r.status)
  at ← now
  let until = at + hold_duration
  wrap "update confirmed: " (update_confirmed id at until)
  quiet (acquire (spot_lock_key r.spot.spot_id) id hold_duration)
  let r' = record r { status = confirmed; confirmed_at = at; expires_at = until }
  quiet (publish reservation_confirmed_event r')
  pure r'

-- The fee of a cancellation at `at`.
unfoldable pub cancel_fee : Time → Reservation → ℕ
cancel_fee at r = if leb_ℤ (sub_time at r.confirmed_at) (pos (2 * minute)) then 0 else 5000

unfoldable pub cancel_reservation : String → String → M String (Reservation × ℕ)
cancel_reservation id driver_id = do
  r ← wrap "get reservation: " (get_reservation id)
  guard (r.driver_id == driver_id) "reservation not owned by driver"
  guard (status_eq r.status confirmed || status_eq r.status pending)
      ("reservation cannot be cancelled in status " ⧺ status_text r.status)
  at ← now
  let fee = cancel_fee at r
  wrap "update cancelled: " (update_cancelled id at)
  quiet (release (spot_lock_key r.spot.spot_id) id)
  let r' = record r { status = cancelled; cancelled_at = some at }
  quiet (publish reservation_cancelled_event r')
  pure (r', fee)

unfoldable pub check_in : String → String → M String Reservation
check_in id driver_id = do
  r ← wrap "get reservation: " (get_reservation id)
  guard (r.driver_id == driver_id) "reservation not owned by driver"
  guard (status_eq r.status confirmed) ("cannot check in: status is " ⧺ status_text r.status)
  t ← now
  guard (if ltb r.expires_at t then false else true) "reservation expired"
  session ← new_uuid
  at ← now
  wrap "update check-in: " (update_check_in id session at)
  let r' = record r { status = active; session_id = session; check_in_at = some at }
  quiet (publish check_in_detected_event r')
  pure r'

-- CheckOut past the idempotency check.
unfoldable pub check_out_fresh : String → String → String → M String Reservation
check_out_fresh id driver_id key = do
  r ← wrap "get reservation: " (get_reservation id)
  guard (r.driver_id == driver_id) "reservation not owned by driver"
  guard (status_eq r.status active) ("cannot check out: status is " ⧺ status_text r.status)
  at ← now
  wrap "update check-out: " (update_check_out id at)
  quiet (release (spot_lock_key r.spot.spot_id) id)
  quiet (save (idempotency_entry key) id default_ttl)
  let r' = record r { status = completed; check_out_at = some at }
  quiet (publish check_out_completed_event r')
  pure r'

unfoldable pub check_out : String → String → String → M String Reservation
check_out id driver_id key = do
  cached ← wrap "idempotency check: " (check (idempotency_entry key))
  elim cached [ some _ ↦ get_reservation id | none ↦ check_out_fresh id driver_id key ]

-- 5 floors of 30 cars, and of 50 motorcycles.
abbrev pub capacity : VehicleType → ℕ
capacity car = 150
capacity motorcycle = 250

-- Total, available, occupied and reserved spots.
unfoldable pub get_availability : VehicleType → M String (ℕ × ℕ × ℤ × ℕ)
get_availability vt = do
  free ← count_available vt
  pure (capacity vt, free, sub_ℕ (capacity vt) free, 0)

-- One round of the loop of ExpireReservations.
unfoldable pub expire_one : Reservation → M String (Unit {0})
expire_one r = do
  outcome ← attempt (update_status r.reservation_id expired)
  elim outcome [
    | err _ ↦ pure tt
    | ok _ ↦ do
      quiet (release (spot_lock_key r.spot.spot_id) r.reservation_id)
      quiet (publish reservation_expired_event r)
  ]

unfoldable pub expire_all : List Reservation → M String (Unit {0})
expire_all [] = pure tt
expire_all (r ∷ rs) = do expire_one r; expire_all rs

unfoldable pub expire_reservations : M String (Unit {0})
expire_reservations = do
  t ← now
  rs ← wrap "list expired: " (list_expired_reservations t)
  expire_all rs
