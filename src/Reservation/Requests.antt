-- ===== src/Reservation/Requests.antt =====
-- The program as a sequence of requests that reach the table `reservations`: those of the reservation
-- service, runs of the expiry job of its cmd/main.go, and the gateway's own two; and what every such
-- sequence does to a reservation's status. A creation is one request, or two steps of any of which
-- others may come between: the lock with `takes_lock`, and the insertion with `inserts_row`.
use parkirpintar.Common.{◌≡◌, refl, Bool, true, false, List, [], ◌∷◌, Option, some, String, arith}
use parkirpintar.Table.{select}
use parkirpintar.World.{World}
use parkirpintar.Reservation.Domain.{
  VehicleType, AssignmentMode, Spot, ReservationStatus, completed, cancelled, expired, Row,
}
use parkirpintar.Reservation.Repository.{row_id}
use parkirpintar.Reservation.Usecase.{
  create_reservation, confirm_reservation, cancel_reservation, check_in, check_out,
  expire_reservations,
}
use parkirpintar.Reservation.Transitions.{
  History, stays, moves, may_become, Changes, done, Changes-one, Changes-trans, Changes-IsUnique,
  Changes-History, IsUnique,
}
use parkirpintar.Reservation.Interleaving.{reserve_lock, reserve_insert}
use parkirpintar.Reservation.Halves.{reserve_lock-Change, reserve_insert-Change}
use parkirpintar.Reservation.ExpiryMoves.{expire_reservations-Changes}
use parkirpintar.Reservation.Writes.{
  create_reservation-Change, confirm_reservation-Change, cancel_reservation-Change, check_in-Change,
  check_out-Change,
}
use parkirpintar.Gateway.Confirmation.{ConfirmRequest, confirm_booking_payment}
use parkirpintar.Gateway.History.{reservation_history}
use parkirpintar.Gateway.Writes.{confirm_booking_payment-Change, reservation_history-Changes}

pub data Request : Type 0 where
  creates : String → String → VehicleType → AssignmentMode → String → Request
  confirms : String → Request
  cancels checks_in : String → String → Request
  checks_out : String → String → String → Request
  expires : Request
  confirms_payment : Option String → Option ConfirmRequest → Request
  lists_history : Option String → Request
  takes_lock : Spot → Request
  inserts_row : String → String → AssignmentMode → Spot → String → Request

-- The world that a request leaves, whatever it answers.
pub serve : Request → World → World
serve (creates driver key vt mode spot) w = (create_reservation driver key vt mode spot w).1
serve (confirms id) w = (confirm_reservation id w).1
serve (cancels id driver) w = (cancel_reservation id driver w).1
serve (checks_in id driver) w = (check_in id driver w).1
serve (checks_out id driver key) w = (check_out id driver key w).1
serve expires w = (expire_reservations w).1
serve (confirms_payment user body) w = (confirm_booking_payment user body w).1
serve (lists_history user) w = (reservation_history user w).1
serve (takes_lock spot) w = (reserve_lock spot w).1
serve (inserts_row driver key mode spot id) w = (reserve_insert driver key mode spot id w).1

pub run : List Request → World → World
run [] w = w
run (q ∷ qs) w = run qs (serve q w)

-- Each request writes along the state machine.
serve-Changes :
    (q : Request) (w : World)
    → IsUnique w.reservations
    → Changes w.reservations (serve q w).reservations
unfolding serve
serve-Changes (creates driver key vt mode spot) w u =
    Changes-one (create_reservation-Change driver key vt mode spot w)
serve-Changes (confirms id) w u = Changes-one (confirm_reservation-Change id w)
serve-Changes (cancels id driver) w u = Changes-one (cancel_reservation-Change id driver w)
serve-Changes (checks_in id driver) w u = Changes-one (check_in-Change id driver w)
serve-Changes (checks_out id driver key) w u = Changes-one (check_out-Change id driver key w)
serve-Changes expires w u = expire_reservations-Changes w u
serve-Changes (confirms_payment user body) w u =
    Changes-one (confirm_booking_payment-Change user body w)
serve-Changes (lists_history user) w u = reservation_history-Changes user w
serve-Changes (takes_lock spot) w u = Changes-one (reserve_lock-Change spot w)
serve-Changes (inserts_row driver key mode spot id) w u =
    Changes-one (reserve_insert-Change driver key mode spot id w)

pub run-Changes :
    (qs : List Request) (w : World)
    → IsUnique w.reservations
    → Changes w.reservations (run qs w).reservations
unfolding run
run-Changes [] w u = done
run-Changes (q ∷ qs) w u =
    let first = serve-Changes q w u in
    Changes-trans first (run-Changes qs (serve q w) (Changes-IsUnique first u))

-- Whatever requests are served, one after another but for creations, whose insertions may come at
-- any later point than their locks, and whichever calls fail, no reservation is lost and no id is
-- used twice, and the status of each reservation moves along the edges of `may_become`. These are the
-- code's: the README's state machine has a failed state in place of the moves from pending to
-- cancelled and to expired.
pub run-History :
    (qs : List Request) (w : World) (id : String) (r : Row)
    → IsUnique w.reservations
    → select row_id id w.reservations ≡ some r
    → IsUnique (run qs w).reservations
      × ((r' : Row) × (select row_id id (run qs w).reservations ≡ some r')
          × History r.status r'.status)
run-History qs w id r u found =
    let cs = run-Changes qs w u in (Changes-IsUnique cs u, Changes-History cs id r found)

abbrev pub is_final : ReservationStatus → Bool
is_final completed = true
is_final cancelled = true
is_final expired = true
is_final _ = false

final_stays : {s t : ReservationStatus} → History s t → is_final s ≡ true → t ≡ s
final_stays stays f = refl
final_stays {s} (moves {t = m} {u = u} h e) f = no_edge m u (final_stays h f) e
  where
    no_edge : (m u : ReservationStatus) → m ≡ s → may_become m u ≡ true → u ≡ s
    no_edge m u p e = ground arith

-- A completed, cancelled or expired reservation keeps its status for ever, where requests are served
-- one after another but for creations, whose insertions may come at any later point.
pub run_final :
    (qs : List Request) (w : World) (id : String) (r : Row)
    → IsUnique w.reservations
    → select row_id id w.reservations ≡ some r
    → is_final r.status ≡ true
    → (r' : Row) × (select row_id id (run qs w).reservations ≡ some r') × (r'.status ≡ r.status)
run_final qs w id r u found f =
    let (r', found', past) = (run-History qs w id r u found).1 in (r', found', final_stays past f)
