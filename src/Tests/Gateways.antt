-- ===== src/Tests/Gateways.antt =====
-- A booking through the gateway: the fee of Alice's reservation is paid, the reservation is
-- confirmed, and Bob finds the spot held.
use parkirpintar.Common.{◌≡◌, refl, ◌+◌, ◌&&◌, ◌⊎◌, [], ◌∷◌, none, some, ◌==◌, eq_iff, arith}
use parkirpintar.Common.Time.{hour}
use parkirpintar.Table.{select, find, update_where}
use parkirpintar.World.{World, ok, err, now, call}
use parkirpintar.Shared.Lock.{redis_get, redis_set}
use parkirpintar.Reservation.Domain.{Row, user_selected, system, confirmed, cancelled}
use parkirpintar.Reservation.Repository.{row_id, row_of}
use parkirpintar.Reservation.Usecase.{reserve_spot, spot_lock_key}
use parkirpintar.Reservation.Outcomes.{Untouched}
use parkirpintar.Payment.Domain.{Transaction, settled}
use parkirpintar.Payment.Repository.{transaction_key}
use parkirpintar.Gateway.Confirmation.{
  ConfirmRequest, ConfirmAnswer, transaction_status, is_booking_fee, is_pending_row, pay_fee,
  confirm_row, pay_booking_fee, confirm_pending, spot_id_of, redis_expire, extend_lock, hold_spot,
  confirm_paid, confirm_booking_payment,
}
use parkirpintar.Gateway.Confirming.{
  confirm_booking_payment_success, confirm_booking_payment_failure,
  confirm_booking_payment_confirms, confirm_booking_payment_other,
}
use parkirpintar.Gateway.Holding.{booking_holds_spot}
use parkirpintar.Accounts.Http.{http_error}
use parkirpintar.Tests.{ids, clock_at, spot1, start}
use parkirpintar.Tests.Bookings.{alice1, made, reserve_spot_test}
use mathlib.Core.Option

-- A settled transaction.
abbrev pub paid_tx : Transaction
paid_tx = record {
  transaction_id = "t1";
  invoice_id = "inv";
  driver_id = "alice";
  gateway_tx_id = "PP-t1";
  payment_method = "QRIS";
  status = settled;
  amount = 5000;
  payment_url = "";
  qr_string = "qr";
  va_number = "";
  va_bank = "";
  idempotency_key = "k";
  created_at = clock_at 1;
  paid_at = none;
  expired_at = none;
}

abbrev settled_world : World
settled_world = record made {
  transactions = paid_tx ∷ [];
  redis =
      record { key = "idempotency:pay-booking-k1"; value = "t1"; expires = clock_at 5 + hour }
      ∷ made.redis;
}

abbrev pub request : ConfirmRequest
request = record { transaction_id = "t1"; reservation_id = ids 0 }

abbrev answer : ConfirmAnswer
answer = record {
  reservation_id = ids 0;
  status = confirmed;
  confirmed_at = clock_at 6;
  expires_at = clock_at 6 + hour;
}

abbrev confirmed_row : Row
confirmed_row = confirm_row (clock_at 6) (row_of alice1)

abbrev paid_world : World
paid_world = record settled_world {
  ticks = 11;
  reservations = confirmed_row ∷ [];
  redis =
      record { key = "spot:s1:lock"; value = ids 0; expires = clock_at 10 + hour }
      ∷ settled_world.redis;
}

confirm_test :
    confirm_booking_payment (some "alice") (some request) settled_world ≡ (ok answer, paid_world)
unfolding confirm_booking_payment transaction_status pay_booking_fee confirm_pending spot_id_of
    redis_expire extend_lock hold_spot confirm_paid now call select find update_where redis_get
    redis_set spot_lock_key
confirm_test = refl

confirm_booking_payment_success_example :
    (Option.map (λ (t : Transaction). t.status) (select transaction_key "t1" (paid_tx ∷ []))
      ≡ some settled)
    × (ids 0 ≡ ids 0)
    × (confirmed ≡ confirmed)
    × (clock_at 6 + hour ≡ clock_at 6 + hour)
    × (confirmed_row ∷ []
        ≡ update_where (is_pending_row (ids 0)) (confirm_row (clock_at 6)) (row_of alice1 ∷ []))
    × (paid_world.spots ≡ settled_world.spots)
    × (paid_world.transactions ≡ settled_world.transactions)
    × (paid_world.published ≡ settled_world.published)
confirm_booking_payment_success_example =
    confirm_booking_payment_success (some "alice") request answer settled_world paid_world
      confirm_test

-- The transaction is not there.
abbrev unpaid_world : World
unpaid_world = record made { ticks = 6 }

confirm_refused_test :
    confirm_booking_payment (some "alice") (some request) made
    ≡ (err (http_error 400 "payment not settled yet"), unpaid_world)
unfolding confirm_booking_payment transaction_status call select find
confirm_refused_test = refl

confirm_booking_payment_failure_example :
    (unpaid_world.reservations ≡ made.reservations)
    × (unpaid_world.spots ≡ made.spots)
    × (unpaid_world.transactions ≡ made.transactions)
    × (unpaid_world.redis ≡ made.redis)
    × (unpaid_world.published ≡ made.published)
    × (((http_error 400 "payment not settled yet").code ≡ 500)
        ⊎ (unpaid_world.invoices ≡ made.invoices))
confirm_booking_payment_failure_example =
    confirm_booking_payment_failure (some "alice") (some request)
      (http_error 400 "payment not settled yet") made unpaid_world confirm_refused_test

-- The transaction of another driver for another invoice.
confirm_booking_payment_confirms_example :
    let (result, w') = confirm_booking_payment (some "bob") (some request) settled_world in
    (result ≡ ok answer)
    × (select row_id (ids 0) w'.reservations ≡ some confirmed_row)
    × (w'.invoices
        ≡ update_where
            (λ i. i.reservation_id == ids 0 && is_booking_fee i.kind)
            (pay_fee (clock_at 6))
            [])
unfolding select find
confirm_booking_payment_confirms_example =
    confirm_booking_payment_confirms "bob" request (row_of alice1) settled_world (λ n. refl)
      (λ e. ground (arith, (eq_iff "t1" "").1 e)) (λ e. ground (arith, (eq_iff (ids 0) "").1 e))
      refl refl refl

-- The reservation was cancelled before its payment is confirmed.
abbrev late_row : Row
late_row = record (row_of alice1) { status = cancelled }

abbrev late_world : World
late_world = record settled_world { reservations = late_row ∷ [] }

abbrev late_after : World
late_after = record paid_world { reservations = late_row ∷ [] }

confirm_late_test :
    confirm_booking_payment (some "alice") (some request) late_world ≡ (ok answer, late_after)
unfolding confirm_booking_payment transaction_status pay_booking_fee confirm_pending spot_id_of
    redis_expire extend_lock hold_spot confirm_paid now call select find update_where redis_get
    redis_set spot_lock_key
confirm_late_test = refl

confirm_booking_payment_other_example :
    (confirmed ≡ confirmed) × (select row_id (ids 0) late_after.reservations ≡ some late_row)
unfolding select find
confirm_booking_payment_other_example =
    confirm_booking_payment_other (some "alice") request answer late_world late_after late_row
      confirm_late_test refl (λ e. cc)

booking_holds_spot_example :
    ((reserve_spot "bob" "k2" system spot1 paid_world).0 ≡ err "spot unavailable")
    × Untouched paid_world (reserve_spot "bob" "k2" system spot1 paid_world).1
unfolding redis_get select spot_lock_key
booking_holds_spot_example =
    booking_holds_spot "alice" "k1" "bob" "k2" user_selected system spot1 (some "alice") request
      answer start made settled_world paid_world paid_world alice1
      (λ e. ground (arith, (eq_iff "s1" "").1 e)) reserve_spot_test refl refl (λ n. refl)
      confirm_test refl (omega arith) refl (omega arith) (omega arith) refl
