-- ===== src/Gateway/Settlement.antt =====
-- services/gateway/internal/handler/extra.go: the settlement of a transaction without the payment
-- provider. SHA-512 in hexadecimal is a parameter, as in the payment service.
use parkirpintar.Common.{ℕ, true, false, Option, some, String, ◌⧺◌, ◌==◌, if◌then◌else◌}
use parkirpintar.Common.Decimal.{decimal}
use parkirpintar.Common.Time.{Time}
use parkirpintar.Table.{select}
use parkirpintar.World.{
  M, ok, err, pure, gets, or_fail, ◌>>=◌, ◌>>◌, guard, map_err, quiet, attempt, now, call,
}
use parkirpintar.Accounts.Http.{HttpError, http_error, is_empty}
use parkirpintar.Reservation.Repository.{no_rows}
use parkirpintar.Billing.Repository.{mark_paid}
use parkirpintar.Payment.Domain.{Transaction, TransactionStatus, settled}
use parkirpintar.Payment.Repository.{transaction_key, update_status}
use parkirpintar.Payment.Gateway.{webhook_signature}
use parkirpintar.Payment.Usecase.{WebhookPayload}

-- fmt.Sprintf("%d.00", amount): an int64 has at most 19 digits.
unfoldable pub gross_amount_of : ℕ → String
unfolding decimal
gross_amount_of amount = decimal 19 amount ⧺ ".00"

-- The payload that Midtrans would send.
unfoldable pub settlement_payload : (String → String) → String → String → ℕ → WebhookPayload
settlement_payload sha512_hex server_key order amount = record {
  order_id = order;
  status_code = "200";
  gross_amount = gross_amount_of amount;
  signature_key = webhook_signature sha512_hex order "200" (gross_amount_of amount) server_key;
  transaction_status = "settlement";
  fraud_status = "accept";
}

-- SELECT … FROM transactions WHERE id = …
unfoldable pub transaction_row : String → M String Transaction
transaction_row id = do
  _ ← call
  found ← gets (λ w. select transaction_key id w.transactions)
  or_fail found no_rows

-- UPDATE transactions SET status = 'settled', paid_at = … WHERE id = …
unfoldable pub settle_row : String → Time → M String (Unit {0})
settle_row id at = update_status id settled (some at)

-- What is not found stays the empty text.
unfoldable pub invoice_of : String → M HttpError String
invoice_of id = do
  found ← attempt (transaction_row id)
  elim found [ ok t ↦ pure t.invoice_id | err _ ↦ pure "" ]

-- UPDATE invoices SET status = 'paid', gateway_tx_id = …, payment_method = 'QRIS' …
unfoldable pub pay_settled : String → String → Time → M HttpError (Unit {0})
pay_settled invoice order at w =
    if invoice == "" then (ok tt, w) else quiet (mark_paid invoice order "QRIS" at) w

pub record SettleAnswer : Type 0 where
  pub transaction_id : String
  pub invoice_id : String
  pub status : TransactionStatus
  pub webhook_payload : WebhookPayload

unfoldable pub settle_found :
    (String → String) → String → String → Transaction → M HttpError SettleAnswer
settle_found sha512_hex server_key id t = do
  at ← now
  map_err (λ _. http_error 500 "failed to update transaction") (settle_row id at)
  invoice ← invoice_of id
  pay_settled invoice t.gateway_tx_id at
  pure (record {
    transaction_id = id;
    invoice_id = invoice;
    status = settled;
    webhook_payload = settlement_payload sha512_hex server_key t.gateway_tx_id t.amount;
  })

-- The body is the transaction's id; one that json does not decode is `none`.
unfoldable pub simulate_settle :
    (String → String) → String → Option String → M HttpError SettleAnswer
simulate_settle sha512_hex server_key body = do
  let missing = http_error 400 "transaction_id is required"
  id ← or_fail body missing
  guard (if is_empty id then false else true) missing
  t ← map_err (λ _. http_error 404 "transaction not found") (transaction_row id)
  settle_found sha512_hex server_key id t
