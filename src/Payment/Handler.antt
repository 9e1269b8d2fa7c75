-- ===== src/Payment/Handler.antt =====
-- services/payment/internal/handler/handler.go. Money is whole IDR. A request without an amount,
-- whose nil pointer the handler dereferences, has the amount `none`.
use parkirpintar.Common.{
  ℕ, Bool, true, false, List, map, Option, none, some, String, ◌==◌, if◌then◌else◌,
}
use parkirpintar.Common.Time.{Time}
use parkirpintar.Common.Grpc.{
  Failure, status_error, nil_dereference, invalid_argument, not_found, internal,
}
use parkirpintar.World.{Result, M, pure, or_fail, ◌>>=◌, ◌>>◌, guard, map_err}
use parkirpintar.Payment.Domain.{
  TransactionStatus, pending, settled, failed, expired, refunded, Transaction, CustomerInfo,
}
use parkirpintar.Payment.Gateway.{Gateway}
use parkirpintar.Payment.Repository.{list_by_invoice}
use parkirpintar.Payment.Usecase.{
  WebhookPayload, create_transaction, get_transaction_status, handle_webhook,
}

-- The enums of gen/payment/v1 and gen/common/v1.
pub data ProtoTransactionStatus : Type 0 where
  status_pending status_settled status_failed status_expired status_refunded :
      ProtoTransactionStatus

pub data ProtoPaymentMethod : Type 0 where
  method_unspecified method_qris method_gopay method_ovo method_dana : ProtoPaymentMethod
  method_va_bca method_va_bni method_va_bri method_va_mandiri : ProtoPaymentMethod

unfoldable pub domain_status_to_proto : TransactionStatus → ProtoTransactionStatus
domain_status_to_proto settled = status_settled
domain_status_to_proto failed = status_failed
domain_status_to_proto expired = status_expired
domain_status_to_proto refunded = status_refunded
domain_status_to_proto pending = status_pending

-- The empty status falls to the default.
abbrev result_status : Option TransactionStatus → ProtoTransactionStatus
result_status none = status_pending
result_status (some s) = domain_status_to_proto s

unfoldable pub proto_to_payment_method : ProtoPaymentMethod → String
proto_to_payment_method method_qris = "QRIS"
proto_to_payment_method method_gopay = "GOPAY"
proto_to_payment_method method_ovo = "OVO"
proto_to_payment_method method_dana = "DANA"
proto_to_payment_method method_va_bca = "VA_BCA"
proto_to_payment_method method_va_bni = "VA_BNI"
proto_to_payment_method method_va_bri = "VA_BRI"
proto_to_payment_method method_va_mandiri = "VA_MANDIRI"
proto_to_payment_method method_unspecified = "PAYMENT_METHOD_UNSPECIFIED"

pub record CreateResponse : Type 0 where
  pub transaction_id : String
  pub gateway_tx_id : String
  pub status : ProtoTransactionStatus
  pub payment_method : ProtoPaymentMethod
  pub payment_url : String
  pub qr_string : String
  pub va_number : String
  pub va_bank : String
  pub expired_at : Option Time

abbrev pub customer_of : Option CustomerInfo → CustomerInfo
customer_of none = record { name = ""; email = ""; phone = "" }
customer_of (some c) = c

unfoldable pub handle_create :
    Gateway
    → String
    → String
    → String
    → ProtoPaymentMethod
    → Option ℕ
    → Option CustomerInfo
    → M Failure CreateResponse
handle_create gw invoice driver key m amount info = do
  guard (if key == "" then false else true)
      (status_error invalid_argument "idempotency_key is required")
  money ← or_fail amount nil_dereference
  tx ← map_err (status_error internal) (
      create_transaction gw invoice driver key (proto_to_payment_method m) money (customer_of info))
  pure (record {
    transaction_id = tx.transaction_id;
    gateway_tx_id = tx.gateway_tx_id;
    status = status_pending;
    payment_method = m;
    payment_url = tx.payment_url;
    qr_string = tx.qr_string;
    va_number = tx.va_number;
    va_bank = tx.va_bank;
    expired_at = tx.expired_at;
  })

pub record StatusResponse : Type 0 where
  pub transaction_id : String
  pub invoice_id : String
  pub status : ProtoTransactionStatus
  pub amount : ℕ
  pub paid_at : Option Time

unfoldable pub handle_status : String → M Failure StatusResponse
unfolding domain_status_to_proto
handle_status id = do
  tx ← map_err (status_error not_found) (get_transaction_status id)
  pure (record {
    transaction_id = tx.transaction_id;
    invoice_id = tx.invoice_id;
    status = domain_status_to_proto tx.status;
    amount = tx.amount;
    paid_at = tx.paid_at;
  })

pub record WebhookResponse : Type 0 where
  pub processed : Bool
  pub is_duplicate : Bool
  pub transaction_id : String
  pub new_status : ProtoTransactionStatus

unfoldable pub handle_webhook_request :
    Gateway → String → (String → Result String WebhookPayload) → String → M Failure WebhookResponse
handle_webhook_request gw server_key unmarshal payload = do
  r ← map_err (status_error invalid_argument) (handle_webhook gw server_key unmarshal payload)
  pure (record {
    processed = r.processed;
    is_duplicate = r.is_duplicate;
    transaction_id = r.tx_id;
    new_status = result_status r.new_status;
  })

pub record ProtoTransaction : Type 0 where
  pub transaction_id : String
  pub invoice_id : String
  pub gateway_tx_id : String
  pub status : ProtoTransactionStatus
  pub amount : ℕ
  pub created_at : Time
  pub paid_at : Option Time

unfoldable pub transaction_to_proto : Transaction → ProtoTransaction
unfolding domain_status_to_proto
transaction_to_proto tx = record {
  transaction_id = tx.transaction_id;
  invoice_id = tx.invoice_id;
  gateway_tx_id = tx.gateway_tx_id;
  status = domain_status_to_proto tx.status;
  amount = tx.amount;
  created_at = tx.created_at;
  paid_at = tx.paid_at;
}

unfoldable pub handle_list : String → M Failure (List ProtoTransaction)
handle_list id = do
  txs ← map_err (status_error internal) (list_by_invoice id)
  pure (map transaction_to_proto txs)
