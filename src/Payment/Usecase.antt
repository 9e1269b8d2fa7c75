-- ===== src/Payment/Usecase.antt =====
-- services/payment/internal/usecase/usecase.go. The log lines are left out. The gateway and the
-- server key are parameters, and so is json.Unmarshal of a webhook's payload.
use Prim.Native.String.{slice, len}
use parkirpintar.Common.{
  Bool, false, true, Option, none, some, ℕ, String, ◌⧺◌, ◌==◌, ◌||◌, if◌then◌else◌,
}
use parkirpintar.Common.Time.{Time}
use parkirpintar.World.{
  M, Result, ok, err, pure, fail, ◌>>=◌, ◌>>◌, guard, wrap, quiet, attempt, now, new_uuid,
}
use parkirpintar.Shared.Idempotency.{check, save, default_ttl}
use parkirpintar.Payment.Domain.{
  Transaction, CustomerInfo, TransactionStatus, pending, settled, failed, expired, refunded,
}
use parkirpintar.Payment.Repository.{
  insert_transaction, get_transaction, get_by_gateway_tx_id, get_by_idempotency_key, update_status,
}
use parkirpintar.Payment.Gateway.{Gateway, ask, first_eight}

-- The codes that the gateway gives for a payment: how to pay, and until when.
pub record Codes : Type 0 where
  pub url : String
  pub qr : String
  pub va : String
  pub bank : String
  pub until : Time

unfoldable pub is_qris : String → Bool
is_qris m = m == "QRIS" || m == "GOPAY" || m == "OVO" || m == "DANA"

unfoldable pub is_va : String → Bool
is_va m = m == "VA_BCA" || m == "VA_BNI" || m == "VA_BRI" || m == "VA_MANDIRI"

-- The text past "VA_".
unfoldable pub va_bank_of : String → String
va_bank_of m = slice m 3 (len m)

unfoldable pub qris_codes : Gateway → String → ℕ → CustomerInfo → M String Codes
qris_codes gw order amount customer = do
  got ← wrap "create QRIS: " (ask (gw.create_qris order amount customer))
  pure (record { url = got.1; qr = got.0; va = ""; bank = ""; until = got.2 })

unfoldable pub va_codes : Gateway → String → String → ℕ → CustomerInfo → M String Codes
va_codes gw order bank amount customer = do
  got ← wrap "create VA: " (ask (gw.create_va order bank amount customer))
  pure (record { url = ""; qr = ""; va = got.0; bank = bank; until = got.1 })

-- The switch on the payment method.
unfoldable pub create_codes : Gateway → String → String → ℕ → CustomerInfo → M String Codes
create_codes gw order m amount customer w =
    if is_qris m
    then qris_codes gw order amount customer w
    else if is_va m
    then va_codes gw order (va_bank_of m) amount customer w
    else (err ("unsupported payment method: " ⧺ m), w)

abbrev pub order_of : String → String
order_of id = "PP-" ⧺ first_eight id

unfoldable pub new_transaction :
    String → String → String → String → String → ℕ → Time → Codes → Transaction
new_transaction id invoice driver key m amount at codes = record {
  transaction_id = id;
  invoice_id = invoice;
  driver_id = driver;
  gateway_tx_id = order_of id;
  payment_method = m;
  status = pending;
  amount = amount;
  payment_url = codes.url;
  qr_string = codes.qr;
  va_number = codes.va;
  va_bank = codes.bank;
  idempotency_key = key;
  created_at = at;
  paid_at = none;
  expired_at = some codes.until;
}

-- CreateTransaction past the idempotency check.
unfoldable pub create_fresh :
    Gateway → String → String → String → String → ℕ → CustomerInfo → M String Transaction
create_fresh gw invoice driver key m amount customer = do
  id ← new_uuid
  at ← now
  codes ← create_codes gw (order_of id) m amount customer
  let tx = new_transaction id invoice driver key m amount at codes
  wrap "insert transaction: " (insert_transaction tx)
  quiet (save ("idempotency:" ⧺ key) id default_ttl)
  pure tx

unfoldable pub create_transaction :
    Gateway → String → String → String → String → ℕ → CustomerInfo → M String Transaction
create_transaction gw invoice driver key m amount customer = do
  cached ← wrap "idempotency check: " (check ("idempotency:" ⧺ key))
  elim cached [
    | some _ ↦ get_by_idempotency_key key
    | none ↦ create_fresh gw invoice driver key m amount customer
  ]

unfoldable pub get_transaction_status : String → M String Transaction
get_transaction_status id = get_transaction id

pub record WebhookPayload : Type 0 where
  pub order_id : String
  pub status_code : String
  pub gross_amount : String
  pub signature_key : String
  pub transaction_status : String
  pub fraud_status : String

-- The four results of HandleWebhook; no status stands for the empty one.
pub record WebhookResult : Type 0 where
  pub processed : Bool
  pub is_duplicate : Bool
  pub tx_id : String
  pub new_status : Option TransactionStatus

unfoldable pub map_midtrans_status : String → String → TransactionStatus
map_midtrans_status tx_status fraud_status =
    if tx_status == "capture"
    then (if fraud_status == "accept" then settled else failed)
    else if tx_status == "settlement"
    then settled
    else if tx_status == "deny" || tx_status == "cancel" || tx_status == "failure"
    then failed
    else if tx_status == "expire"
    then expired
    else if tx_status == "refund"
    then refunded
    else pending

unfoldable pub webhook_entry : WebhookPayload → String
webhook_entry p = "webhook:" ⧺ p.order_id ⧺ ":" ⧺ p.transaction_status

-- A webhook that was answered before: the transaction as it stands, if it is found.
unfoldable pub answer_duplicate : String → M String WebhookResult
answer_duplicate order = do
  found ← attempt (get_by_gateway_tx_id order)
  elim found [
    | ok tx ↦ pure (record {
      processed = true;
      is_duplicate = true;
      tx_id = tx.transaction_id;
      new_status = some tx.status;
    })
    | err _ ↦ pure (record { processed = true; is_duplicate = true; tx_id = ""; new_status = none })
  ]

-- time.Now() for a status of settled, else nil.
abbrev paid_time : TransactionStatus → M String (Option Time)
paid_time settled = do t ← now; pure (some t)
paid_time _ = pure none

-- HandleWebhook past the signature and the idempotency check.
unfoldable pub apply_webhook : WebhookPayload → M String WebhookResult
apply_webhook p = do
  tx ← wrap "get transaction: " (get_by_gateway_tx_id p.order_id)
  let status = map_midtrans_status p.transaction_status p.fraud_status
  paid_at ← paid_time status
  wrap "update status: " (update_status tx.transaction_id status paid_at)
  quiet (save (webhook_entry p) tx.transaction_id default_ttl)
  pure (record {
    processed = true;
    is_duplicate = false;
    tx_id = tx.transaction_id;
    new_status = some status;
  })

-- HandleWebhook of a payload that is read.
unfoldable pub handle_payload : Gateway → String → WebhookPayload → M String WebhookResult
handle_payload gw server_key p = do
  guard
      (gw.verify_webhook_signature p.order_id p.status_code p.gross_amount server_key
        == p.signature_key)
      "invalid signature"
  cached ← wrap "idempotency check: " (check (webhook_entry p))
  elim cached [ some _ ↦ answer_duplicate p.order_id | none ↦ apply_webhook p ]

unfoldable pub handle_webhook :
    Gateway → String → (String → Result String WebhookPayload) → String → M String WebhookResult
handle_webhook gw server_key unmarshal payload = elim (unmarshal payload) [
  | err e ↦ fail ("invalid payload: " ⧺ e)
  | ok p ↦ handle_payload gw server_key p
]
