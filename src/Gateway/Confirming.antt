-- ===== src/Gateway/Confirming.antt =====
-- What ConfirmBookingPayment of services/gateway/internal/handler/extra.go writes.
use parkirpintar.Common.{
  ℕ, ◌≡◌, ◌≢◌, ◌+◌, ◌⊎◌, ◌&&◌, none, some, Option, String, ◌==◌, arith, eq_iff,
}
use parkirpintar.Common.Time.{hour}
use parkirpintar.Table.{select, update_where}
use parkirpintar.World.{World, next_tick, ok, err, call}
use parkirpintar.Accounts.Http.{HttpError}
use parkirpintar.Reservation.Domain.{Row, pending, confirmed}
use parkirpintar.Reservation.Repository.{row_id}
use parkirpintar.Payment.Domain.{Transaction, settled}
use parkirpintar.Payment.Repository.{transaction_key}
use parkirpintar.Gateway.Confirmation.{
  ConfirmRequest, ConfirmAnswer, transaction_status, pay_fee, is_booking_fee, is_pending_row,
  confirm_row, confirm_paid, confirm_booking_payment,
}
use mathlib.Core.Option
use parkirpintar.Gateway.Paid.{
  confirm_paid_success, confirm_paid_failure, confirm_paid_confirms, select-confirm_row,
}

-- A confirmation that succeeds was asked for with a settled transaction. It makes the reservation,
-- if it is pending, confirmed and held for one hour from the returned instant, and leaves every
-- other reservation, the spots, the transactions and the messages alone.
pub confirm_booking_payment_success :
    (user : Option String) (req : ConfirmRequest) (a : ConfirmAnswer) (w w' : World)
    → confirm_booking_payment user (some req) w ≡ (ok a, w')
    → (Option.map
          (λ (t : Transaction). t.status)
          (select transaction_key req.transaction_id w.transactions)
        ≡ some settled)
      × (a.reservation_id ≡ req.reservation_id)
      × (a.status ≡ confirmed)
      × (a.expires_at ≡ a.confirmed_at + hour)
      × (w'.reservations
          ≡ update_where
              (is_pending_row req.reservation_id)
              (confirm_row a.confirmed_at)
              w.reservations)
      × (w'.spots ≡ w.spots)
      × (w'.transactions ≡ w.transactions)
      × (w'.published ≡ w.published)
unfolding confirm_booking_payment transaction_status call
confirm_booking_payment_success user req a w w' h =
    ground (arith, confirm_paid_success req.reservation_id a (next_tick w) w')

-- A confirmation that fails leaves the reservations, the spots, the transactions, Redis and the
-- messages alone; unless it answers 500, the invoices too.
pub confirm_booking_payment_failure :
    (user : Option String) (body : Option ConfirmRequest) (e : HttpError) (w w' : World)
    → confirm_booking_payment user body w ≡ (err e, w')
    → (w'.reservations ≡ w.reservations)
      × (w'.spots ≡ w.spots)
      × (w'.transactions ≡ w.transactions)
      × (w'.redis ≡ w.redis)
      × (w'.published ≡ w.published)
      × ((e.code ≡ 500) ⊎ (w'.invoices ≡ w.invoices))
unfolding confirm_booking_payment transaction_status call
confirm_booking_payment_failure user none e w w' h = ground arith
confirm_booking_payment_failure user (some req) e w w' h =
    ground (arith, confirm_paid_failure req.reservation_id e (next_tick w) w')

-- What an answer was given from.
pub confirm_booking_payment-went :
    (user : Option String) (req : ConfirmRequest) (a : ConfirmAnswer) (w w' : World)
    → confirm_booking_payment user (some req) w ≡ (ok a, w')
    → confirm_paid req.reservation_id (next_tick w) ≡ (ok a, w')
unfolding confirm_booking_payment transaction_status call
confirm_booking_payment-went user req a w w' h = ground arith

-- A logged-in user's request with a settled transaction goes on to the reservation.
confirm_booking_payment-paid :
    (user : String) (req : ConfirmRequest) (w : World)
    → w.env.fault w.ticks ≡ none
    → req.transaction_id ≢ ""
    → req.reservation_id ≢ ""
    → Option.map
        (λ (t : Transaction). t.status)
        (select transaction_key req.transaction_id w.transactions)
      ≡ some settled
    → confirm_booking_payment (some user) (some req) w
      ≡ confirm_paid req.reservation_id (next_tick w)
unfolding confirm_booking_payment transaction_status call
confirm_booking_payment-paid user req w up tx res settles =
    ground (arith, eq_iff req.transaction_id "", eq_iff req.reservation_id "")

-- Where no call fails and the transaction is settled, a logged-in user's confirmation of a pending
-- reservation confirms it: whatever invoice the transaction pays, whoever holds the reservation and
-- whenever it was to expire. Its booking fee is marked as paid.
pub confirm_booking_payment_confirms :
    (user : String) (req : ConfirmRequest) (r : Row) (w : World)
    → ((n : ℕ) → w.env.fault n ≡ none)
    → req.transaction_id ≢ ""
    → req.reservation_id ≢ ""
    → Option.map
        (λ (t : Transaction). t.status)
        (select transaction_key req.transaction_id w.transactions)
      ≡ some settled
    → select row_id req.reservation_id w.reservations ≡ some r
    → r.status ≡ pending
    → let (answer, w') = confirm_booking_payment (some user) (some req) w in
      let at = w.env.clock (w.ticks + 1) in
      (answer
        ≡ ok (record {
          reservation_id = req.reservation_id;
          status = confirmed;
          confirmed_at = at;
          expires_at = at + hour;
        }))
      × (select row_id req.reservation_id w'.reservations ≡ some (confirm_row at r))
      × (w'.invoices
          ≡ update_where
              (λ i. i.reservation_id == req.reservation_id && is_booking_fee i.kind)
              (pay_fee at)
              w.invoices)
confirm_booking_payment_confirms user req r w up tx res settles found waits =
    rw (confirm_booking_payment-paid user req w (up w.ticks) tx res settles) (
      confirm_paid_confirms req.reservation_id r (next_tick w) (up (w.ticks + 1 + 1))
        (up (w.ticks + 1 + 1 + 1)) found waits)

-- A reservation that is not pending is left as it is, though the answer to a settled transaction
-- says that it is confirmed.
pub confirm_booking_payment_other :
    (user : Option String) (req : ConfirmRequest) (a : ConfirmAnswer) (w w' : World) (r : Row)
    → confirm_booking_payment user (some req) w ≡ (ok a, w')
    → select row_id req.reservation_id w.reservations ≡ some r
    → r.status ≢ pending
    → (a.status ≡ confirmed) × (select row_id req.reservation_id w'.reservations ≡ some r)
confirm_booking_payment_other user req a w w' r h found other =
    let s = confirm_booking_payment_success user req a w w' h in
    (s.2, ground (arith, s.4, select-confirm_row req.reservation_id a.confirmed_at w.reservations))
