-- ===== src/Tests/Desk.antt =====
-- Confirmation, check-in, check-out and cancellation of one reservation.
use parkirpintar.Common.{false, ◌≡◌, refl, ◌+◌, ◌≤◌, ◌⊎◌, [], ◌∷◌, some}
use parkirpintar.Common.Time.{hour}
use parkirpintar.Table.{find, select, update}
use parkirpintar.World.{World, ok, now, new_uuid, call}
use parkirpintar.Shared.Lock.{
  acquire, set_nx, release, release_script, redis_get, redis_set, redis_del,
}
use parkirpintar.Shared.Idempotency.{save}
use parkirpintar.Pricing.{calculate_cancellation_fee}
use parkirpintar.Reservation.Domain.{
  Reservation, Row, user_selected, pending, confirmed, active, completed, cancelled,
}
use parkirpintar.Reservation.Repository.{
  row_id, row_of, join, get_reservation, update_confirmed, update_reservation, update_check_in,
  update_check_out, update_cancelled,
}
use parkirpintar.Reservation.Publisher.{publish, from_domain}
use parkirpintar.Reservation.Usecase.{
  new_reservation, confirm_reservation, cancel_reservation, cancel_fee, check_in, check_out_fresh,
  spot_lock_key,
}
use parkirpintar.Reservation.Outcomes.{cancel_reservation_success, check_in_success}
use parkirpintar.Tests.{ids, clock_at, spot1, start}

-- Alice's reservation, pending.
abbrev asked : Reservation
asked = new_reservation "r" "alice" "k1" user_selected spot1 (clock_at 0)

abbrev asked_row : Row
asked_row = row_of asked

abbrev asking : World
asking = record start { reservations = asked_row ∷ [] }

-- Confirmed.
abbrev granted : Reservation
granted = record asked {
  status = confirmed;
  confirmed_at = clock_at 1;
  expires_at = clock_at 1 + hour;
}

abbrev granted_row : Row
granted_row = record asked_row {
  status = confirmed;
  confirmed_at = clock_at 1;
  expires_at = clock_at 1 + hour;
}

abbrev waiting : World
waiting = record asking {
  ticks = 6;
  reservations = granted_row ∷ [];
  redis = record { key = "spot:s1:lock"; value = "r"; expires = clock_at 3 + hour } ∷ [];
  published =
      record {
        event = "reservation.confirmed";
        timestamp = clock_at 4;
        payload = from_domain granted;
      }
      ∷ [];
}

confirm_test : confirm_reservation "r" asking ≡ (ok granted, waiting)
unfolding confirm_reservation get_reservation join update_confirmed update_reservation update now
    call acquire set_nx redis_get redis_set select find publish spot_lock_key
confirm_test = refl

-- Cancelled instead.
abbrev dropped : Reservation
dropped = record asked { status = cancelled; cancelled_at = some (clock_at 1) }

abbrev empty_again : World
empty_again = record asking {
  ticks = 6;
  reservations = record asked_row { status = cancelled; cancelled_at = some (clock_at 1) } ∷ [];
  published =
      record {
        event = "reservation.cancelled";
        timestamp = clock_at 4;
        payload = from_domain dropped;
      }
      ∷ [];
}

cancel_test : cancel_reservation "r" "alice" asking ≡ (ok (dropped, 0), empty_again)
unfolding cancel_reservation cancel_fee get_reservation join update_cancelled update_reservation
    update now call release release_script redis_get select find publish spot_lock_key
cancel_test = refl

-- Checked in.
abbrev parked : Reservation
parked = record granted { status = active; session_id = ids 8; check_in_at = some (clock_at 9) }

abbrev pub parked_row : Row
parked_row = record granted_row {
  status = active;
  session_id = some (ids 8);
  check_in_at = some (clock_at 9);
}

abbrev pub inside : World
inside = record waiting {
  ticks = 13;
  reservations = parked_row ∷ [];
  published =
      record { event = "checkin.detected"; timestamp = clock_at 11; payload = from_domain parked }
      ∷ waiting.published;
}

check_in_test : check_in "r" "alice" waiting ≡ (ok parked, inside)
unfolding check_in get_reservation join update_check_in update_reservation update now new_uuid call
    select find publish
check_in_test = refl

-- Checked out.
abbrev left : Reservation
left = record parked { status = completed; check_out_at = some (clock_at 14) }

abbrev outside : World
outside = (check_out_fresh "r" "alice" "k9" inside).1

check_out_test : check_out_fresh "r" "alice" "k9" inside ≡ (ok left, outside)
unfolding check_out_fresh get_reservation join update_check_out update_reservation update now call
    release release_script save redis_get redis_set redis_del select find publish spot_lock_key
check_out_test = refl

cancel_reservation_success_example :
    (row : Row) × (select row_id "r" asking.reservations ≡ some row)
    × (row.driver_id ≡ "alice")
    × ((row.status ≡ pending) ⊎ (row.status ≡ confirmed))
    × (empty_again.reservations
        ≡ update row_id "r"
            (λ x. record x { status = cancelled; cancelled_at = dropped.cancelled_at })
            asking.reservations)
    × (empty_again.spots ≡ asking.spots)
    × (empty_again.invoices ≡ asking.invoices)
    × (empty_again.transactions ≡ asking.transactions)
    × (dropped.cancelled_at ≡ some (asking.env.clock (asking.ticks + 1)))
    × (0 ≡ calculate_cancellation_fee row.confirmed_at (asking.env.clock (asking.ticks + 1)) false)
cancel_reservation_success_example =
    cancel_reservation_success "r" "alice" asking empty_again dropped 0 cancel_test

check_in_success_example :
    (row : Row) × (select row_id "r" waiting.reservations ≡ some row)
    × (row.driver_id ≡ "alice")
    × (row.status ≡ confirmed)
    × (waiting.env.clock (waiting.ticks + 1) ≤ row.expires_at)
    × (inside.reservations
        ≡ update row_id "r"
            (λ x. record x {
              status = active;
              session_id = some parked.session_id;
              check_in_at = parked.check_in_at;
            })
            waiting.reservations)
    × (inside.redis ≡ waiting.redis)
    × (inside.spots ≡ waiting.spots)
    × (inside.invoices ≡ waiting.invoices)
    × (inside.transactions ≡ waiting.transactions)
check_in_success_example = check_in_success "r" "alice" waiting inside parked check_in_test
