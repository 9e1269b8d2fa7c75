-- ===== src/Tests/Bookings.antt =====
-- A reservation that is made, refused to another driver, confirmed, and booked again; the requests
-- around it; the expiry of its hold.
use parkirpintar.Common.{
  ◌≡◌, refl, ◌+◌, ◌*◌, List, [], ◌∷◌, false, none, some, arith, if◌then◌else◌,
}
use parkirpintar.Common.Time.{hour, minute}
use parkirpintar.Table.{find, select, update, delete}
use parkirpintar.World.{World, ok, err, now, new_uuid, call}
use parkirpintar.Shared.Lock.{
  acquire, set_nx, release, release_script, redis_get, redis_set, redis_del,
}
use parkirpintar.Shared.Idempotency.{save}
use parkirpintar.Reservation.Domain.{
  Reservation, Row, system, user_selected, car, confirmed, cancelled,
}
use parkirpintar.Reservation.Repository.{
  row_id, row_of, is_taken, join, insert_reservation, get_reservation, update_confirmed,
}
use parkirpintar.Reservation.Publisher.{publish, from_domain}
use parkirpintar.Reservation.Usecase.{
  new_reservation, reserve_spot, create_reservation, confirm_reservation, expire_reservations,
  idempotency_entry, spot_lock_key,
}
use parkirpintar.Reservation.Outcomes.{Untouched}
use parkirpintar.Reservation.Creation.{
  reserve_spot_success, reserve_spot_failure_releases, create_reservation_replay,
}
use parkirpintar.Reservation.Transitions.{IsUnique, History}
use parkirpintar.Reservation.Requests.{
  Request, creates, confirms, cancels, checks_in, checks_out, expires, run, run-History, run_final,
}
use parkirpintar.Reservation.Expiry.{expire_row, is_over, expire_reservations_exact}
use parkirpintar.Tests.{ids, clock_at, calm, spot1, row1, start}
use mathlib.Core.Option

-- Alice's reservation of spot s1, and the world that it leaves.
abbrev pub alice1 : Reservation
alice1 = new_reservation (ids 0) "alice" "k1" user_selected spot1 (clock_at 2)

abbrev pub made : World
made = record start {
  ticks = 5;
  reservations = row_of alice1 ∷ [];
  redis =
      record { key = "idempotency:k1"; value = ids 0; expires = clock_at 4 + 24 * hour }
      ∷ record { key = "spot:s1:lock"; value = ids 0; expires = clock_at 1 + 5 * minute }
      ∷ [];
}

pub reserve_spot_test : reserve_spot "alice" "k1" user_selected spot1 start ≡ (ok alice1, made)
unfolding reserve_spot insert_reservation is_taken find now new_uuid call acquire set_nx redis_get
    redis_set select save idempotency_entry spot_lock_key
reserve_spot_test = refl

reserve_spot_success_example :
    (redis_get (spot_lock_key "s1") (clock_at 1) [] ≡ none)
    × (is_taken alice1 [] ≡ false)
    × (made.reservations ≡ row_of alice1 ∷ [])
    × (alice1 ≡ new_reservation (ids 0) "alice" "k1" user_selected spot1 (clock_at 2))
    × (made.spots ≡ start.spots)
    × (made.invoices ≡ [])
    × (made.transactions ≡ [])
    × (made.published ≡ [])
    × (made.env ≡ calm)
reserve_spot_success_example =
    reserve_spot_success "alice" "k1" user_selected spot1 start made alice1 reserve_spot_test

create_reservation_replay_example :
    ((create_reservation "alice" "k1" car system "" made).0 ≡ ok alice1)
    × Untouched made (create_reservation "alice" "k1" car system "" made).1
unfolding select find
create_reservation_replay_example =
    create_reservation_replay "alice" "alice" "k1" "" car user_selected system row1 start made made
      alice1 reserve_spot_test refl refl refl refl (omega arith) refl refl

-- A world where Alice's key is taken in the table but not in Redis, so that an insertion fails.
abbrev forgotten : World
forgotten = record made { redis = [] }

abbrev refused : World
refused = record forgotten { ticks = 10 }

insert_refused_test :
    reserve_spot "alice" "k1" user_selected spot1 forgotten
    ≡ (err "insert reservation: duplicate key value violates unique constraint", refused)
unfolding reserve_spot insert_reservation is_taken find now new_uuid call acquire set_nx redis_get
    redis_set redis_del select save release release_script spot_lock_key delete
insert_refused_test = refl

reserve_spot_failure_releases_example :
    redis_get "spot:s1:lock" (clock_at 20) [] ≡ redis_get "spot:s1:lock" (clock_at 20) []
reserve_spot_failure_releases_example =
    reserve_spot_failure_releases "alice" "k1" user_selected spot1 forgotten refused
      "insert reservation: duplicate key value violates unique constraint" "spot:s1:lock"
      (clock_at 20) insert_refused_test refl (omega arith) (omega arith)

-- The confirmation of Alice's reservation.
abbrev alice2 : Reservation
alice2 = record alice1 {
  status = confirmed;
  confirmed_at = clock_at 6;
  expires_at = clock_at 6 + hour;
}

abbrev alice_row : Row
alice_row = record (row_of alice1) {
  status = confirmed;
  confirmed_at = clock_at 6;
  expires_at = clock_at 6 + hour;
}

abbrev held : World
held = record made {
  ticks = 11;
  reservations = alice_row ∷ [];
  published =
      record {
        event = "reservation.confirmed";
        timestamp = clock_at 9;
        payload = from_domain alice2;
      }
      ∷ [];
}

confirm_test : confirm_reservation (ids 0) made ≡ (ok alice2, held)
unfolding confirm_reservation get_reservation join update_confirmed update now call acquire set_nx
    redis_get redis_set select find publish spot_lock_key
confirm_test = refl

-- Seven minutes after Alice's creation Bob asks for the same spot.
abbrev later : World
later = record held { ticks = 40 }

-- Requests of two drivers around Alice's reservation, with a run of the expiry job.
abbrev day_of_requests : List Request
day_of_requests =
    checks_in (ids 0) "bob"
    ∷ checks_in (ids 0) "alice"
    ∷ creates "bob" "k2" car system ""
    ∷ cancels (ids 0) "alice"
    ∷ expires
    ∷ checks_out (ids 0) "alice" "k3"
    ∷ []

run-History_example :
    IsUnique (run day_of_requests held).reservations
    × ((r : Row) × (select row_id (ids 0) (run day_of_requests held).reservations ≡ some r)
        × History confirmed r.status)
unfolding select find
run-History_example = run-History day_of_requests held (ids 0) alice_row (refl, tt) refl

abbrev called_off : World
called_off = record held {
  reservations = record alice_row { status = cancelled; cancelled_at = some (clock_at 12) } ∷ [];
}

run_final_example :
    (r : Row) × (select row_id
        (ids 0)
        (run (confirms (ids 0) ∷ day_of_requests) called_off).reservations
      ≡ some r)
    × (r.status ≡ cancelled)
unfolding select find
run_final_example =
    run_final (confirms (ids 0) ∷ day_of_requests) called_off (ids 0)
      (record alice_row { status = cancelled; cancelled_at = some (clock_at 12) }) (refl, tt) refl
      refl

-- Two hours later the hold is over.
abbrev overdue : World
overdue = record held { ticks = 720 }

expire_reservations_exact_example :
    ((expire_reservations overdue).0 ≡ ok tt)
    × (select row_id (ids 0) (expire_reservations overdue).1.reservations
        ≡ Option.map
            (λ r. if is_over (clock_at 720) r then expire_row r else r)
            (select row_id (ids 0) held.reservations))
unfolding select find
expire_reservations_exact_example =
    expire_reservations_exact overdue (ids 0) (λ n. refl) (refl, tt) ((row1, refl), tt)
