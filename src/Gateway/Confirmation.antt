-- ===== src/Gateway/Confirmation.antt =====
-- services/gateway/internal/handler/extra.go: the booking-fee invoice, and the confirmation of a
-- reservation once its booking fee is paid. An answer of writeJSON is its value; a body that json
-- does not decode is `none`.
use parkirpintar.Common.{
  ◌+◌, ◌&&◌, ◌||◌, Bool, true, false, List, ◌∷◌, Option, none, some, String, ◌==◌, if◌then◌else◌,
}
use parkirpintar.Common.Time.{Time, hour}
use parkirpintar.Table.{find, select, update_where}
use parkirpintar.World.{
  Entry, M, ok, err, pure, gets, or_fail, ◌>>=◌, ◌>>◌, guard, modify, map_err, wrap, quiet, attempt,
  now, new_uuid, call,
}
use parkirpintar.Accounts.Http.{HttpError, http_error, is_empty}
use parkirpintar.Shared.Lock.{redis_get, redis_set}
use parkirpintar.Reservation.Domain.{Row, ReservationStatus, pending, confirmed, status_eq}
use parkirpintar.Reservation.Repository.{row_id, no_rows}
use parkirpintar.Reservation.Usecase.{spot_lock_key}
use parkirpintar.Billing.Domain.{Invoice, InvoiceType, booking_fee_type, parking_session, paid}
use parkirpintar.Billing.Repository.{is_taken}
use parkirpintar.Billing.Usecase.{booking_invoice}
use parkirpintar.Payment.Domain.{TransactionStatus, settled}
use parkirpintar.Payment.Repository.{transaction_key}
use mathlib.Core.Option

-- SELECT id FROM invoices WHERE idempotency_key = …
unfoldable pub invoice_id_of : String → M String String
invoice_id_of key = do
  _ ← call
  found ← gets (λ w. find (λ i. i.idempotency_key == key) w.invoices)
  or_fail (Option.map (λ (i : Invoice). i.invoice_id) found) no_rows

-- INSERT INTO invoices …: the columns that are not given have their defaults.
unfoldable pub insert_booking_row : String → String → String → String → M String (Unit {0})
insert_booking_row id reservation driver key = do
  at ← call
  let inv = booking_invoice id reservation driver key at
  taken ← gets (λ w. is_taken inv w.invoices)
  guard (if taken then false else true) "duplicate key value violates unique constraint"
  modify (λ w. record w { invoices = inv ∷ w.invoices })

unfoldable pub insert_booking_fee : String → String → String → M String String
insert_booking_fee reservation driver key = do
  id ← new_uuid
  wrap "insert booking fee invoice: " (insert_booking_row id reservation driver key)
  pure id

-- Whatever error the lookup has, the insertion is tried.
unfoldable pub create_booking_fee_invoice : String → String → String → M String String
create_booking_fee_invoice reservation driver key = do
  found ← attempt (invoice_id_of key)
  elim found [ ok id ↦ pure id | err _ ↦ insert_booking_fee reservation driver key ]

-- The fields of a body with no field are empty texts.
pub record ConfirmRequest : Type 0 where
  pub transaction_id : String
  pub reservation_id : String

pub record ConfirmAnswer : Type 0 where
  pub reservation_id : String
  pub status : ReservationStatus
  pub confirmed_at : Time
  pub expires_at : Time

-- SELECT status FROM transactions WHERE id = …
unfoldable pub transaction_status : String → M String TransactionStatus
transaction_status id = do
  _ ← call
  found ← gets (λ w. select transaction_key id w.transactions)
  or_fail (Option.map (λ t. t.status) found) no_rows

abbrev pub is_settled : TransactionStatus → Bool
is_settled settled = true
is_settled _ = false

abbrev pub is_booking_fee : InvoiceType → Bool
is_booking_fee booking_fee_type = true
is_booking_fee parking_session = false

abbrev pub pay_fee : Time → Invoice → Invoice
pay_fee at i = record i { status = paid; paid_at = some at }

-- UPDATE invoices SET status = 'paid' … WHERE reservation_id = … AND type = 'booking_fee'
unfoldable pub pay_booking_fee : String → Time → M String (Unit {0})
pay_booking_fee reservation at = do
  _ ← call
  modify (λ w. record w {
    invoices =
        update_where (λ i. i.reservation_id == reservation && is_booking_fee i.kind) (pay_fee at)
          w.invoices;
  })

-- WHERE id = … AND status = 'pending'
abbrev pub is_pending_row : String → Row → Bool
is_pending_row id r = r.id == id && status_eq r.status pending

abbrev pub confirm_row : Time → Row → Row
confirm_row at r = record r { status = confirmed; confirmed_at = at; expires_at = at + hour }

unfoldable pub confirm_pending : String → Time → M String (Unit {0})
confirm_pending id at = do
  _ ← call
  modify (λ w. record w {
    reservations = update_where (is_pending_row id) (confirm_row at) w.reservations;
  })

-- SELECT spot_id FROM reservations WHERE id = …
unfoldable pub spot_id_of : String → M String String
spot_id_of id = do
  _ ← call
  found ← gets (λ w. select row_id id w.reservations)
  or_fail (Option.map (λ (r : Row). r.spot_id) found) no_rows

-- EXPIRE: a key that is gone stays gone.
unfoldable pub redis_expire : String → Time → Time → List Entry → List Entry
redis_expire k t until entries = elim (redis_get k t entries) [
  | none ↦ entries
  | some v ↦ redis_set k v until entries
]

unfoldable pub extend_lock : String → M String (Unit {0})
extend_lock spot w =
    if spot == ""
    then (ok tt, w)
    else (do
      t ← call
      modify (λ w. record w { redis = redis_expire (spot_lock_key spot) t (t + hour) w.redis }))
        w

-- The lock is extended where the reservation's spot is found; an error is dropped.
unfoldable pub hold_spot : String → M HttpError (Unit {0})
hold_spot id = quiet (spot_id_of id >>= extend_lock)

-- ConfirmBookingPayment of a settled transaction.
unfoldable pub confirm_paid : String → M HttpError ConfirmAnswer
confirm_paid id = do
  at ← now
  quiet (pay_booking_fee id at)
  map_err (λ _. http_error 500 "failed to confirm reservation") (confirm_pending id at)
  hold_spot id
  pure (record {
    reservation_id = id;
    status = confirmed;
    confirmed_at = at;
    expires_at = at + hour;
  })

unfoldable pub confirm_booking_payment :
    Option String → Option ConfirmRequest → M HttpError ConfirmAnswer
confirm_booking_payment user body = do
  _ ← or_fail user (http_error 401 "missing user id")
  let missing = http_error 400 "transaction_id and reservation_id are required"
  req ← or_fail body missing
  guard (if is_empty req.transaction_id || is_empty req.reservation_id then false else true) missing
  let unsettled = http_error 400 "payment not settled yet"
  status ← map_err (λ _. unsettled) (transaction_status req.transaction_id)
  guard (is_settled status) unsettled
  confirm_paid req.reservation_id
