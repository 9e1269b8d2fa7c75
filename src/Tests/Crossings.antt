-- ===== src/Tests/Crossings.antt =====
-- Requests that cross: two creations for one spot, and a payment with the expiry job.
use parkirpintar.Common.{◌≡◌, ◌≢◌, ◌<◌, refl, ◌+◌, [], ◌∷◌, Option, none, some, String, arith}
use parkirpintar.Common.Time.{hour}
use parkirpintar.Table.{select, find, where_, update_where}
use parkirpintar.World.{World, ok, err, now, new_uuid, call}
use parkirpintar.Shared.Lock.{acquire, set_nx, redis_get, redis_set}
use parkirpintar.Shared.Idempotency.{save}
use parkirpintar.Reservation.Domain.{user_selected, system, confirmed, expired, payment_timeout}
use parkirpintar.Reservation.Repository.{
  row_of, join, join_all, list_expired_reservations, insert_reservation, is_taken,
}
use parkirpintar.Reservation.Usecase.{spot_lock_key, expire_all}
use parkirpintar.Reservation.Interleaving.{
  reserve_lock, reserve_insert, Event, locks, inserts, step, Trace, stops, goes,
  reserve_lock_excludes,
}
use parkirpintar.Gateway.Confirmation.{
  transaction_status, pay_booking_fee, confirm_pending, spot_id_of, redis_expire, extend_lock,
  hold_spot, confirm_paid, confirm_booking_payment, ConfirmAnswer,
}
use parkirpintar.Gateway.Crossing.{list_overdue, status_in, paid_then_expired}
use parkirpintar.Tests.{ids, clock_at, spot1, spot2, start}
use parkirpintar.Tests.Bookings.{alice1, made}
use parkirpintar.Tests.Gateways.{paid_tx, request}

-- Alice's creation has the lock of her spot, and has not inserted its row.
abbrev locked : World
locked = (reserve_lock spot1 start).1

lock_test : reserve_lock spot1 start ≡ (ok (ids 0), locked)
unfolding reserve_lock acquire set_nx redis_get redis_set select find new_uuid call spot_lock_key
lock_test = refl

-- Bob takes the lock of another spot, tries hers, and inserts his row; then she inserts hers.
abbrev bob_locks : World
bob_locks = step (locks spot2) locked

abbrev bob_tries : World
bob_tries = step (locks spot1) bob_locks

abbrev bob_inserts : Event
bob_inserts = inserts "bob" "k2" system spot2 (ids 2)

abbrev alice_inserts : Event
alice_inserts = inserts "alice" "k1" user_selected spot1 (ids 0)

abbrev both : World
both = step alice_inserts (step bob_inserts bob_tries)

kept : {id : String} (o : Option String) → o ≡ none → o ≢ some id
kept none e = λ f. cc
kept (some s) e = λ f. cc

crossing : Trace (ids 0) (clock_at 1 + payment_timeout) locked both
unfolding step reserve_lock reserve_insert acquire set_nx redis_get redis_set select find new_uuid
    now call spot_lock_key insert_reservation is_taken save
crossing =
    goes
      (goes
        (goes (goes stops (locks spot2) (kept _ refl) (omega arith)) (locks spot1) (kept _ refl)
          (omega arith))
        bob_inserts (kept _ refl) tt)
      alice_inserts (kept _ refl) tt

reserve_lock_excludes_example : (reserve_lock spot1 both).0 ≡ err "spot unavailable"
unfolding step reserve_lock reserve_insert acquire set_nx redis_get redis_set select find new_uuid
    now call spot_lock_key insert_reservation is_taken save
reserve_lock_excludes_example =
    reserve_lock_excludes spot1 (ids 0) start locked both lock_test crossing (omega arith) refl

-- Alice's payment is settled, but the job has seen her reservation overdue.
abbrev overdue : World
overdue = record made { ticks = 400; transactions = paid_tx ∷ [] }

abbrev seen : World
seen = record overdue { ticks = 402 }

overdue_test : list_overdue overdue ≡ (ok (alice1 ∷ []), seen)
unfolding list_overdue list_expired_reservations join join_all where_ select find now call
overdue_test = refl

abbrev crossed : World
crossed = (confirm_booking_payment (some "alice") (some request) seen).1

abbrev paid_answer : ConfirmAnswer
paid_answer = record {
  reservation_id = ids 0;
  status = confirmed;
  confirmed_at = clock_at 403;
  expires_at = clock_at 403 + hour;
}

pay_test : confirm_booking_payment (some "alice") (some request) seen ≡ (ok paid_answer, crossed)
unfolding confirm_booking_payment transaction_status pay_booking_fee confirm_pending spot_id_of
    redis_expire extend_lock hold_spot confirm_paid now call select find update_where redis_get
    redis_set spot_lock_key
pay_test = refl

paid_then_expired_example :
    (alice1.expires_at < clock_at 400)
    × (status_in (ids 0) crossed ≡ some confirmed)
    × (status_in (ids 0) (expire_all (alice1 ∷ []) crossed).1 ≡ some expired)
unfolding confirm_booking_payment transaction_status pay_booking_fee confirm_pending spot_id_of
    redis_expire extend_lock hold_spot confirm_paid now call select find update_where redis_get
    redis_set spot_lock_key
paid_then_expired_example =
    paid_then_expired (some "alice") request paid_answer alice1 [] (row_of alice1) overdue seen
      crossed overdue_test pay_test refl refl refl refl
