-- ===== src/Gateway/Bills.antt =====
-- services/gateway/internal/handler/handler.go, the requests about invoices and payments. Money is
-- whole IDR.
use parkirpintar.Common.{ℕ, Option, none, some, String}
use parkirpintar.Common.Time.{Time}
use parkirpintar.Common.Grpc.{Failure}
use parkirpintar.World.{M, pure, ◌>>=◌}
use parkirpintar.Billing.Handler.{
  ProtoInvoice, ProtoInvoiceStatus, status_draft, status_pending_payment, status_paid, status_void,
  handle_get, handle_get_by_session,
}
use parkirpintar.Payment.Gateway.{Gateway}
use parkirpintar.Payment.Handler.{
  ProtoPaymentMethod, ProtoTransactionStatus, status_pending, status_settled, status_failed,
  status_expired, status_refunded, CreateResponse, handle_create, handle_status,
}
use parkirpintar.Gateway.Client.{user_of, rpc}

pub record InvoiceSummary : Type 0 where
  pub invoice_id : String
  pub booking_fee : ℕ
  pub parking_fee : ℕ
  pub overnight_fee : ℕ
  pub total_amount : ℕ
  pub status : String
  pub billed_hours : ℕ

-- inv.Status.String()
abbrev invoice_status_text : ProtoInvoiceStatus → String
invoice_status_text status_draft = "INVOICE_STATUS_DRAFT"
invoice_status_text status_pending_payment = "INVOICE_STATUS_PENDING_PAYMENT"
invoice_status_text status_paid = "INVOICE_STATUS_PAID"
invoice_status_text status_void = "INVOICE_STATUS_VOID"

abbrev pub summary_of : ProtoInvoice → InvoiceSummary
summary_of inv = record {
  invoice_id = inv.invoice_id;
  booking_fee = inv.breakdown.booking_fee;
  parking_fee = inv.breakdown.parking_fee;
  overnight_fee = inv.breakdown.overnight_fee;
  total_amount = inv.total_amount;
  status = invoice_status_text inv.status;
  billed_hours = inv.breakdown.billed_hours;
}

unfoldable pub get_invoice : String → M Failure InvoiceSummary
get_invoice id = do inv ← rpc (handle_get id); pure (summary_of inv)

-- The preview is of an invoice that exists; its status is left empty.
unfoldable pub preview_billing : String → M Failure (InvoiceSummary × String)
preview_billing session = do
  inv ← rpc (handle_get_by_session session)
  pure (record (summary_of inv) { status = "" }, "Estimasi, final amount dihitung saat checkout")

pub record PaymentAnswer : Type 0 where
  pub transaction_id : String
  pub payment_method : ProtoPaymentMethod
  pub payment_url : String
  pub qr_string : String
  pub va_number : String
  pub va_bank : String
  pub expired_at : Option Time

abbrev payment_answer : CreateResponse → PaymentAnswer
payment_answer resp = record {
  transaction_id = resp.transaction_id;
  payment_method = resp.payment_method;
  payment_url = resp.payment_url;
  qr_string = resp.qr_string;
  va_number = resp.va_number;
  va_bank = resp.va_bank;
  expired_at = resp.expired_at;
}

-- The amount is the total of the invoice.
unfoldable pub create_payment :
    Gateway → Option String → String → ProtoPaymentMethod → String → M Failure PaymentAnswer
create_payment gw user invoice m key = do
  driver ← user_of user
  inv ← rpc (handle_get invoice)
  resp ← rpc (handle_create gw invoice driver key m (some inv.total_amount) none)
  pure (payment_answer resp)

-- resp.Status.String()
abbrev transaction_status_text : ProtoTransactionStatus → String
transaction_status_text status_pending = "TRANSACTION_STATUS_PENDING"
transaction_status_text status_settled = "TRANSACTION_STATUS_SETTLED"
transaction_status_text status_failed = "TRANSACTION_STATUS_FAILED"
transaction_status_text status_expired = "TRANSACTION_STATUS_EXPIRED"
transaction_status_text status_refunded = "TRANSACTION_STATUS_REFUNDED"

-- The transaction, its status, the amount and the instant of the payment.
unfoldable pub get_payment_status : String → M Failure (String × String × ℕ × Option Time)
get_payment_status id = do
  resp ← rpc (handle_status id)
  pure (resp.transaction_id, transaction_status_text resp.status, resp.amount, resp.paid_at)
