-- ===== src/Reservation/Writes.antt =====
-- The use cases of services/reservation/internal/usecase/usecase.go, by what they write to the table
-- `reservations`: each writes at most once, along the state machine, however it ends.
use parkirpintar.Common.{◌≡◌, refl, ◌⊎◌, inl, inr, none, some, String, arith, Option-cases}
use parkirpintar.World.{World, Result-cases, ok, err, next_tick, call}
use parkirpintar.Shared.Lock.{redis_get}
use parkirpintar.Shared.Idempotency.{check}
use parkirpintar.Reservation.Domain.{VehicleType, AssignmentMode, system, user_selected, Spot}
use parkirpintar.Reservation.Repository.{
  row_of, get_reservation, get_by_idempotency_key, get_spot, find_available_spot,
}
use parkirpintar.Reservation.Usecase.{
  choose_spot, idempotency_entry, reserve_spot, create_fresh, create_reservation,
  confirm_reservation, cancel_reservation, check_in, check_out, check_out_fresh,
}
use parkirpintar.Reservation.Outcomes.{
  confirm_reservation_success, confirm_reservation_failure, cancel_reservation_success,
  cancel_reservation_failure, check_in_success, check_in_failure, check_out_fresh_success,
  check_out_fresh_failure,
}
use parkirpintar.Reservation.Creation.{is_taken-select, reserve_spot_success, reserve_spot_failure}
use parkirpintar.Reservation.Transitions.{Change, same, created, moved}

reserve_spot-Change :
    (driver key : String) (mode : AssignmentMode) (spot : Spot) (w : World)
    → Change w.reservations (reserve_spot driver key mode spot w).1.reservations
reserve_spot-Change driver key mode spot w =
    elim (Result-cases (reserve_spot driver key mode spot w)) [
      | inl (r, w', e) ↦
          let s = reserve_spot_success driver key mode spot w w' r e in
          rw e (created (row_of r) (ground (arith, s.3)) (is_taken-select r w.reservations s.1) s.2)
      | inr (t, w', e) ↦ rw e (same (reserve_spot_failure driver key mode spot w w' t e).1)
    ]

choose_spot-table :
    (mode : AssignmentMode) (vt : VehicleType) (spot : String) (w : World)
    → (choose_spot mode vt spot w).1.reservations ≡ w.reservations
unfolding choose_spot get_spot find_available_spot call
choose_spot-table user_selected vt spot w = ground arith
choose_spot-table system vt spot w = ground arith

-- CreateReservation past the idempotency check, by the spot chosen.
create_fresh-chosen :
    (driver key : String) (vt : VehicleType) (mode : AssignmentMode) (spot : String) (w v : World)
    (s : Spot)
    → choose_spot mode vt spot w ≡ (ok (some s), v)
    → create_fresh driver key vt mode spot w ≡ reserve_spot driver key mode s v
unfolding create_fresh
create_fresh-chosen driver key vt mode spot w v s e = ground arith

create_fresh-none :
    (driver key : String) (vt : VehicleType) (mode : AssignmentMode) (spot : String) (w v : World)
    → choose_spot mode vt spot w ≡ (ok none, v)
    → (create_fresh driver key vt mode spot w).1 ≡ v
unfolding create_fresh
create_fresh-none driver key vt mode spot w v e = ground arith

create_fresh-err :
    (driver key : String) (vt : VehicleType) (mode : AssignmentMode) (spot t : String) (w v : World)
    → choose_spot mode vt spot w ≡ (err t, v)
    → (create_fresh driver key vt mode spot w).1 ≡ v
unfolding create_fresh
create_fresh-err driver key vt mode spot t w v e = ground arith

create_fresh-Change :
    (driver key : String) (vt : VehicleType) (mode : AssignmentMode) (spot : String) (w : World)
    → Change w.reservations (create_fresh driver key vt mode spot w).1.reservations
create_fresh-Change driver key vt mode spot w = elim (Result-cases (choose_spot mode vt spot w)) [
  | inl (some s, v, e) ↦
      let kept : v.reservations ≡ w.reservations =
        ground (arith, choose_spot-table mode vt spot w) in
      rw (create_fresh-chosen driver key vt mode spot w v s e, ← kept)
        (reserve_spot-Change driver key mode s v)
  | inl (none, v, e) ↦
      rw (create_fresh-none driver key vt mode spot w v e)
        (same (ground (arith, choose_spot-table mode vt spot w)))
  | inr (t, v, e) ↦
      rw (create_fresh-err driver key vt mode spot t w v e)
        (same (ground (arith, choose_spot-table mode vt spot w)))
]

-- The three ways through the idempotency check.
create_reservation-paths :
    (driver key : String) (vt : VehicleType) (mode : AssignmentMode) (spot : String) (w : World)
    → ((create_reservation driver key vt mode spot w).1.reservations ≡ w.reservations)
      ⊎ ((v : World) × (v.reservations ≡ w.reservations)
          × (create_reservation driver key vt mode spot w ≡ create_fresh driver key vt mode spot v))
unfolding create_reservation check get_by_idempotency_key call
create_reservation-paths driver key vt mode spot w = elim (Option-cases (w.env.fault w.ticks)) [
  | inl up ↦ elim (Option-cases (redis_get (idempotency_entry key) (w.env.clock w.ticks) w.redis)) [
    | inl miss ↦ inr (next_tick w, refl, ground arith)
    | inr (v, hit) ↦ inl (ground arith)
  ]
  | inr (t, down) ↦ inl (ground arith)
]

pub create_reservation-Change :
    (driver key : String) (vt : VehicleType) (mode : AssignmentMode) (spot : String) (w : World)
    → Change w.reservations (create_reservation driver key vt mode spot w).1.reservations
create_reservation-Change driver key vt mode spot w =
    elim (create_reservation-paths driver key vt mode spot w) [
      | inl e ↦ same e
      | inr (v, kept, e) ↦ rw (e, ← kept) (create_fresh-Change driver key vt mode spot v)
    ]

pub confirm_reservation-Change :
    (id : String) (w : World) → Change w.reservations (confirm_reservation id w).1.reservations
confirm_reservation-Change id w = elim (Result-cases (confirm_reservation id w)) [
  | inl (r, w', e) ↦
      let s = confirm_reservation_success id w w' r e in
      rw e (moved id s.0 _ s.1 (λ x. refl) (ground arith) s.4)
  | inr (t, w', e) ↦ rw e (same (confirm_reservation_failure id w w' t e).1)
]

pub cancel_reservation-Change :
    (id driver : String) (w : World)
    → Change w.reservations (cancel_reservation id driver w).1.reservations
cancel_reservation-Change id driver w = elim (Result-cases (cancel_reservation id driver w)) [
  | inl ((r, fee), w', e) ↦
      let s = cancel_reservation_success id driver w w' r fee e in
      rw e (moved id s.0 _ s.1 (λ x. refl) (ground arith) s.4)
  | inr (t, w', e) ↦ rw e (same (cancel_reservation_failure id driver w w' t e).1)
]

pub check_in-Change :
    (id driver : String) (w : World) → Change w.reservations (check_in id driver w).1.reservations
check_in-Change id driver w = elim (Result-cases (check_in id driver w)) [
  | inl (r, w', e) ↦
      let s = check_in_success id driver w w' r e in
      rw e (moved id s.0 _ s.1 (λ x. refl) (ground arith) s.5)
  | inr (t, w', e) ↦ rw e (same (check_in_failure id driver w w' t e).1)
]

check_out_fresh-Change :
    (id driver key : String) (w : World)
    → Change w.reservations (check_out_fresh id driver key w).1.reservations
check_out_fresh-Change id driver key w = elim (Result-cases (check_out_fresh id driver key w)) [
  | inl (r, w', e) ↦
      let s = check_out_fresh_success id driver key w w' r e in
      rw e (moved id s.0 _ s.1 (λ x. refl) (ground arith) s.4)
  | inr (t, w', e) ↦ rw e (same (check_out_fresh_failure id driver key w w' t e).1)
]

check_out-paths :
    (id driver key : String) (w : World)
    → ((check_out id driver key w).1.reservations ≡ w.reservations)
      ⊎ ((v : World) × (v.reservations ≡ w.reservations)
          × (check_out id driver key w ≡ check_out_fresh id driver key v))
unfolding check_out check get_reservation call
check_out-paths id driver key w = elim (Option-cases (w.env.fault w.ticks)) [
  | inl up ↦ elim (Option-cases (redis_get (idempotency_entry key) (w.env.clock w.ticks) w.redis)) [
    | inl miss ↦ inr (next_tick w, refl, ground arith)
    | inr (v, hit) ↦ inl (ground arith)
  ]
  | inr (t, down) ↦ inl (ground arith)
]

pub check_out-Change :
    (id driver key : String) (w : World)
    → Change w.reservations (check_out id driver key w).1.reservations
check_out-Change id driver key w = elim (check_out-paths id driver key w) [
  | inl e ↦ same e
  | inr (v, kept, e) ↦ rw (e, ← kept) (check_out_fresh-Change id driver key v)
]
