-- ===== src/Reservation/Halves.antt =====
-- The two steps of CreateReservation of services/reservation/internal/usecase/usecase.go, the lock
-- and the insertion, by what they write to the table `reservations`.
use parkirpintar.Common.{◌≡◌, ◌∷◌, inl, inr, false, String, arith}
use parkirpintar.World.{World, Result-cases, ok, err, now, new_uuid, call}
use parkirpintar.Reservation.Domain.{AssignmentMode, Spot, Reservation, pending}
use parkirpintar.Reservation.Repository.{row_of, is_taken, insert_reservation}
use parkirpintar.Reservation.Outcomes.{acquire-SameTables, save-SameTables, release-SameTables}
use parkirpintar.Reservation.Creation.{is_taken-select}
use parkirpintar.Reservation.Transitions.{Change, same, created}
use parkirpintar.Reservation.Interleaving.{reserve_lock, reserve_insert}

reserve_lock-table :
    (spot : Spot) (w : World) → (reserve_lock spot w).1.reservations ≡ w.reservations
unfolding reserve_lock new_uuid
reserve_lock-table spot w = grind (arith, acquire-SameTables)

pub reserve_lock-Change :
    (spot : Spot) (w : World) → Change w.reservations (reserve_lock spot w).1.reservations
reserve_lock-Change spot w = same (reserve_lock-table spot w)

reserve_insert_success :
    (driver key : String) (mode : AssignmentMode) (spot : Spot) (id : String) (w w' : World)
    (r : Reservation)
    → reserve_insert driver key mode spot id w ≡ (ok r, w')
    → (is_taken r w.reservations ≡ false)
      × (r.status ≡ pending)
      × (w'.reservations ≡ row_of r ∷ w.reservations)
unfolding reserve_insert insert_reservation now call
reserve_insert_success driver key mode spot id w w' r h =
    grind (arith, save-SameTables, release-SameTables)

reserve_insert_failure :
    (driver key : String) (mode : AssignmentMode) (spot : Spot) (id e : String) (w w' : World)
    → reserve_insert driver key mode spot id w ≡ (err e, w')
    → w'.reservations ≡ w.reservations
unfolding reserve_insert insert_reservation now call
reserve_insert_failure driver key mode spot id e w w' h =
    grind (arith, save-SameTables, release-SameTables)

pub reserve_insert-Change :
    (driver key : String) (mode : AssignmentMode) (spot : Spot) (id : String) (w : World)
    → Change w.reservations (reserve_insert driver key mode spot id w).1.reservations
reserve_insert-Change driver key mode spot id w =
    elim (Result-cases (reserve_insert driver key mode spot id w)) [
      | inl (r, w', e) ↦
          let s = reserve_insert_success driver key mode spot id w w' r e in
          rw e (created (row_of r) s.1 (is_taken-select r w.reservations s.0) s.2)
      | inr (t, w', e) ↦ rw e (same (reserve_insert_failure driver key mode spot id t w w' e))
    ]
