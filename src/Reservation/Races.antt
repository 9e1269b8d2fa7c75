-- ===== src/Reservation/Races.antt =====
-- Two requests for one reservation at a time. CheckIn and CancelReservation of
-- services/reservation/internal/usecase/usecase.go read the row, test its status and write later by
-- the id alone; here each is its two halves, between which another request may run.
use parkirpintar.Common.{
  ◌≡◌, refl, ℕ, true, false, some, String, ◌⧺◌, ◌==◌, arith, eq_refl, ltb, if◌then◌else◌,
}
use parkirpintar.Table.{select, update, select-update}
use parkirpintar.World.{World, M, ok, pure, ◌>>=◌, ◌>>◌, guard, wrap, quiet, now, new_uuid, call}
use parkirpintar.Reservation.Domain.{
  Row, Reservation, confirmed, active, cancelled, status_eq, status_text,
}
use parkirpintar.Reservation.Repository.{row_id, get_reservation, update_check_in}
use parkirpintar.Reservation.Publisher.{publish, check_in_detected_event}
use parkirpintar.Reservation.Usecase.{check_in, cancel_reservation}
use parkirpintar.Reservation.Outcomes.{publish-SameTables, cancel_reservation_success}
use mathlib.Core.Option

-- CheckIn up to its tests.
unfoldable pub check_in_read : String → String → M String Reservation
check_in_read id driver_id = do
  r ← wrap "get reservation: " (get_reservation id)
  guard (r.driver_id == driver_id) "reservation not owned by driver"
  guard (status_eq r.status confirmed) ("cannot check in: status is " ⧺ status_text r.status)
  t ← now
  guard (if ltb r.expires_at t then false else true) "reservation expired"
  pure r

-- CheckIn from there on.
unfoldable pub check_in_write : String → Reservation → M String Reservation
check_in_write id r = do
  session ← new_uuid
  at ← now
  wrap "update check-in: " (update_check_in id session at)
  let r' = record r { status = active; session_id = session; check_in_at = some at }
  quiet (publish check_in_detected_event r')
  pure r'

-- With nothing between them the halves are CheckIn.
pub check_in-halves :
    (id driver : String) (w : World)
    → check_in id driver w ≡ (check_in_read id driver >>= check_in_write id) w
unfolding check_in check_in_read check_in_write
check_in-halves id driver w = ground arith

check_in_write_success :
    (id : String) (r r' : Reservation) (w w' : World)
    → check_in_write id r w ≡ (ok r', w')
    → w'.reservations
      ≡ update row_id id
          (λ x. record x {
            status = active;
            session_id = some r'.session_id;
            check_in_at = r'.check_in_at;
          })
          w.reservations
unfolding check_in_write update_check_in new_uuid now call
check_in_write_success id r r' w w' h = grind (arith, publish-SameTables)

-- A cancelled reservation that comes back. A check-in that has read the reservation, a cancellation
-- of it that succeeds then, and the check-in's write: after the cancellation the reservation is
-- cancelled, and after the write it is active.
pub cancelled_then_active :
    (id driver driver' : String) (r r' r'' : Reservation) (fee : ℕ) (w v v' v'' : World)
    → check_in_read id driver w ≡ (ok r, v)
    → cancel_reservation id driver' v ≡ (ok (r', fee), v')
    → check_in_write id r v' ≡ (ok r'', v'')
    → (Option.map (λ (x : Row). x.status) (select row_id id v'.reservations) ≡ some cancelled)
      × (Option.map (λ (x : Row). x.status) (select row_id id v''.reservations) ≡ some active)
cancelled_then_active id driver driver' r r' r'' fee w v v' v'' reads cancels writes =
    let s = cancel_reservation_success id driver' v v' r' fee cancels in
    let table = check_in_write_success id r r'' v' v'' writes in
    let gone =
      select-update row_id (λ x. record x { status = cancelled; cancelled_at = r'.cancelled_at })
        (λ x. refl) id id v.reservations in
    let back =
      select-update row_id
        (λ x. record x {
          status = active;
          session_id = some r''.session_id;
          check_in_at = r''.check_in_at;
        })
        (λ x. refl) id id v'.reservations in
    (
      ground (arith, s.1, s.4, gone, eq_refl id),
      ground (arith, s.1, s.4, table, gone, back, eq_refl id),
    )
