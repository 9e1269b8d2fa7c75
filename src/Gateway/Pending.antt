-- ===== src/Gateway/Pending.antt =====
-- services/gateway/internal/handler/extra.go: the payment that a pending reservation waits for.
use parkirpintar.Common.{
  ℕ, ◌-◌, ◌/◌, Bool, true, false, ◌&&◌, List, [], ◌∷◌, Option, none, some, String, ◌==◌, ltb,
  if◌then◌else◌,
}
use parkirpintar.Common.Time.{Time}
use parkirpintar.Table.{select}
use parkirpintar.World.{
  M, pure, gets, or_fail, ◌>>=◌, ◌>>◌, guard, map_err, attempt, ok, err, now, call,
}
use parkirpintar.Accounts.Http.{HttpError, http_error, is_empty}
use parkirpintar.Reservation.Domain.{Reservation, pending, status_eq}
use parkirpintar.Reservation.Repository.{row_id, join, no_rows}
use parkirpintar.Billing.Domain.{Invoice}
use parkirpintar.Billing.Repository.{invoice_key}
use parkirpintar.Payment.Domain.{Transaction}
use parkirpintar.Payment.Repository.{insert_newest}
use parkirpintar.Gateway.Confirmation.{is_booking_fee}

-- SELECT … FROM reservations r JOIN spots s … WHERE r.id = …
unfoldable pub joined_reservation : String → M String Reservation
joined_reservation id = do
  _ ← call
  found ← gets (λ w. join w.spots (select row_id id w.reservations))
  or_fail found no_rows

-- Whether the transaction's invoice is a booking fee of the reservation.
abbrev pub is_fee_of : String → Option Invoice → Bool
is_fee_of reservation none = false
is_fee_of reservation (some i) = i.reservation_id == reservation && is_booking_fee i.kind

-- JOIN invoices i ON i.id = t.invoice_id WHERE … ORDER BY t.created_at DESC
unfoldable pub fee_transactions : String → List Invoice → List Transaction → List Transaction
unfolding insert_newest
fee_transactions reservation invoices [] = []
fee_transactions reservation invoices (t ∷ ts) =
    let rest = fee_transactions reservation invoices ts in
    if is_fee_of reservation (select invoice_key t.invoice_id invoices)
    then insert_newest t rest
    else rest

abbrev newest_codes : List Transaction → Option (String × String)
newest_codes [] = none
newest_codes (t ∷ _) = some (t.transaction_id, t.qr_string)

-- LIMIT 1, with the transaction's id and its QR text.
unfoldable pub newest_payment : String → M String (String × String)
unfolding fee_transactions
newest_payment reservation = do
  _ ← call
  found ← gets (λ w. newest_codes (fee_transactions reservation w.invoices w.transactions))
  or_fail found no_rows

-- What is not found stays the empty text.
abbrev pub payment_or_empty : String → M HttpError (String × String)
payment_or_empty id = do
  found ← attempt (newest_payment id)
  elim found [ ok codes ↦ pure codes | err _ ↦ pure ("", "") ]

abbrev nanoseconds : ℕ
nanoseconds = 1_000_000_000

-- int(time.Until(expiresAt).Seconds()), not below 0.
unfoldable pub remaining_seconds : Time → Time → ℕ
remaining_seconds until t = (until - t) / nanoseconds

pub record PendingPayment : Type 0 where
  pub reservation_id : String
  pub transaction_id : String
  pub qr_string : String
  pub expires_at : Time
  pub remaining : ℕ
  pub floor : ℕ
  pub number : ℕ

-- GetPendingPayment of a reservation that waits for its payment.
unfoldable pub pending_answer : String → Reservation → M HttpError PendingPayment
pending_answer id r = do
  codes ← payment_or_empty id
  t ← now
  pure (record {
    reservation_id = id;
    transaction_id = codes.0;
    qr_string = codes.1;
    expires_at = r.expires_at;
    remaining = remaining_seconds r.expires_at t;
    floor = r.spot.floor;
    number = r.spot.spot_number;
  })

unfoldable pub get_pending_payment : Option String → String → M HttpError PendingPayment
get_pending_payment user id = do
  _ ← or_fail user (http_error 401 "missing user id")
  guard (if is_empty id then false else true) (http_error 400 "reservation_id is required")
  r ← map_err (λ _. http_error 404 "reservation not found") (joined_reservation id)
  guard (status_eq r.status pending) (http_error 400 "reservation is not pending")
  t ← now
  guard (if ltb r.expires_at t then false else true) (http_error 410 "payment timeout expired")
  pending_answer id r
