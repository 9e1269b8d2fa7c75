-- ===== src/Tests/Gate.antt =====
-- Requests at the gateway's handlers over the other services: a booking whose payment is refused, a
-- check-in at the right spot, a history, and two requests that cross.
use parkirpintar.Common.{◌≡◌, refl, ◌+◌, map, List, [], ◌∷◌, some}
use parkirpintar.Common.Time.{hour}
use parkirpintar.Table.{select, find}
use parkirpintar.World.{World, ok, now, new_uuid, call}
use parkirpintar.Shared.Lock.{release}
use parkirpintar.Reservation.Domain.{
  Row, Reservation, system, confirmed, active, cancelled, expired, car,
}
use parkirpintar.Reservation.Repository.{
  row_id, row_of, join, get_reservation, update_check_in, update_cancelled,
}
use parkirpintar.Reservation.Publisher.{publish}
use parkirpintar.Reservation.Usecase.{cancel_reservation, cancel_fee}
use parkirpintar.Reservation.Requests.{Request, creates, cancels, run}
use parkirpintar.Reservation.Lifecycle.{Steps, view, run-Steps}
use parkirpintar.Reservation.Races.{check_in_read, check_in_write, cancelled_then_active}
use parkirpintar.Gateway
use parkirpintar.Reservation.Usecase
use parkirpintar.Reservation.Handler.{
  CheckInResponse, status_active, handle_get, handle_check_in, domain_reservation_to_proto,
  domain_spot_to_proto, domain_status_to_proto,
}
use parkirpintar.Gateway.Client.{rpc}
use parkirpintar.Gateway.Handler.{check_spot}
use parkirpintar.Tests.{ids, clock_at, start}
use parkirpintar.Tests.Bookings.{alice1, made}
use mathlib.Core.Option

abbrev requests : List Request
requests = creates "bob" "k9" car system "" ∷ cancels "id" "bob" ∷ []

run-Steps_example : Steps (view start.reservations) (view (run requests start).reservations)
run-Steps_example = run-Steps requests start tt

-- Alice's reservation, an hour later.
abbrev later : World
later = record made { ticks = 400 }

abbrev later_after : World
later_after = record later {
  ticks = 403;
  reservations = record (row_of alice1) { status = expired } ∷ [];
}

-- Alice's reservation, confirmed.
abbrev held : Reservation
held = record alice1 { status = confirmed; expires_at = clock_at 2 + hour }

abbrev held_world : World
held_world = record made { reservations = row_of held ∷ [] }

abbrev read_world : World
read_world = record held_world { ticks = 7 }

read_test : check_in_read (ids 0) "alice" held_world ≡ (ok held, read_world)
unfolding check_in_read get_reservation join now call select find
read_test = refl

abbrev dropped : Reservation
dropped = record held { status = cancelled; cancelled_at = some (clock_at 8) }

abbrev dropped_world : World
dropped_world = (cancel_reservation (ids 0) "alice" read_world).1

cancel_test : cancel_reservation (ids 0) "alice" read_world ≡ (ok (dropped, 0), dropped_world)
unfolding cancel_reservation cancel_fee get_reservation update_cancelled join now call publish
    release select find
cancel_test = refl

abbrev back : Reservation
back = record held { status = active; session_id = ids 13; check_in_at = some (clock_at 14) }

abbrev back_world : World
back_world = (check_in_write (ids 0) held dropped_world).1

write_test : check_in_write (ids 0) held dropped_world ≡ (ok back, back_world)
unfolding check_in_write update_check_in new_uuid now call publish cancel_reservation cancel_fee
    get_reservation update_cancelled join release select find
write_test = refl

cancelled_then_active_example :
    (Option.map (λ (x : Row). x.status) (select row_id (ids 0) dropped_world.reservations)
      ≡ some cancelled)
    × (Option.map (λ (x : Row). x.status) (select row_id (ids 0) back_world.reservations)
        ≡ some active)
cancelled_then_active_example =
    cancelled_then_active (ids 0) "alice" "alice" held dropped back 0 held_world read_world
      dropped_world back_world read_test cancel_test write_test

-- Alice checks in at her spot.
abbrev checked : CheckInResponse
checked = record {
  reservation_id = ids 0;
  session_id = ids 11;
  status = status_active;
  check_in_at = clock_at 12;
}

abbrev checked_world : World
checked_world = (Gateway.Handler.check_in (some "alice") (ids 0) "s1" held_world).1

gateway_check_in_test :
    Gateway.Handler.check_in (some "alice") (ids 0) "s1" held_world ≡ (ok checked, checked_world)
unfolding Gateway.Handler.check_in check_spot rpc handle_get handle_check_in get_reservation join
    Usecase.check_in update_check_in publish now new_uuid call select find
    domain_reservation_to_proto domain_spot_to_proto domain_status_to_proto
gateway_check_in_test = refl
