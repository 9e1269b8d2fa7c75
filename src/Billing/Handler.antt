-- ===== src/Billing/Handler.antt =====
-- services/billing/internal/handler/handler.go. Money is whole IDR.
use parkirpintar.Common.{ℕ, Bool, true, false, Option, String, ◌==◌, if◌then◌else◌}
use parkirpintar.Common.Int.{ℤ}
use parkirpintar.Common.Time.{Time, sub_time, minutes}
use parkirpintar.Common.Grpc.{Failure, status_error, invalid_argument, not_found, internal}
use parkirpintar.World.{M, pure, ◌>>=◌, ◌>>◌, guard, map_err, now}
use parkirpintar.Billing.Domain.{InvoiceStatus, pending_payment, paid, void, Invoice}
use parkirpintar.Billing.Repository.{get_invoice, get_invoice_by_session}
use parkirpintar.Billing.Usecase.{
  generate_invoice, preview_billing, calculate_cancellation_fee, mark_invoice_paid,
}

-- The enum of gen/common/v1.
pub data ProtoInvoiceStatus : Type 0 where
  status_draft status_pending_payment status_paid status_void : ProtoInvoiceStatus

unfoldable pub domain_status_to_proto : InvoiceStatus → ProtoInvoiceStatus
domain_status_to_proto pending_payment = status_pending_payment
domain_status_to_proto paid = status_paid
domain_status_to_proto void = status_void
domain_status_to_proto _ = status_draft

pub record Breakdown : Type 0 where
  pub booking_fee : ℕ
  pub parking_fee : ℕ
  pub overnight_fee : ℕ
  pub billed_hours : ℕ
  pub actual_duration_minutes : ℤ
  pub is_overnight : Bool

pub record ProtoInvoice : Type 0 where
  pub invoice_id : String
  pub session_id : String
  pub reservation_id : String
  pub driver_id : String
  pub breakdown : Breakdown
  pub total_amount : ℕ
  pub status : ProtoInvoiceStatus
  pub created_at : Time
  pub paid_at : Option Time

unfoldable pub domain_invoice_to_proto : Invoice → ProtoInvoice
unfolding domain_status_to_proto
domain_invoice_to_proto inv = record {
  invoice_id = inv.invoice_id;
  session_id = inv.session_id;
  reservation_id = inv.reservation_id;
  driver_id = inv.driver_id;
  breakdown = record {
    booking_fee = inv.booking_fee;
    parking_fee = inv.parking_fee;
    overnight_fee = inv.overnight_fee;
    billed_hours = inv.billed_hours;
    actual_duration_minutes = inv.duration_mins;
    is_overnight = inv.is_overnight;
  };
  total_amount = inv.total_amount;
  status = domain_status_to_proto inv.status;
  created_at = inv.created_at;
  paid_at = inv.paid_at;
}

unfoldable pub handle_generate :
    String → String → String → String → Time → Time → M Failure ProtoInvoice
handle_generate session reservation driver key check_in check_out = do
  guard (if key == "" then false else true)
      (status_error invalid_argument "idempotency_key is required")
  inv ←
      map_err (status_error internal)
        (generate_invoice session reservation driver key check_in check_out)
  pure (domain_invoice_to_proto inv)

unfoldable pub handle_get : String → M Failure ProtoInvoice
handle_get id = do
  inv ← map_err (status_error not_found) (get_invoice id)
  pure (domain_invoice_to_proto inv)

unfoldable pub handle_get_by_session : String → M Failure ProtoInvoice
handle_get_by_session session = do
  inv ← map_err (status_error not_found) (get_invoice_by_session session)
  pure (domain_invoice_to_proto inv)

-- The breakdown and the estimated total.
unfoldable pub handle_preview : Time → M String (Breakdown × ℕ)
handle_preview check_in = do
  bill ← preview_billing check_in
  t ← now
  pure (
    record {
      booking_fee = bill.booking;
      parking_fee = bill.parking;
      overnight_fee = bill.overnight;
      billed_hours = bill.hours;
      actual_duration_minutes = minutes (sub_time t check_in);
      is_overnight = bill.is_overnight;
    },
    bill.total,
  )

unfoldable pub handle_cancellation_fee : Time → Time → Bool → M Failure (ℕ × String)
handle_cancellation_fee confirmed_at cancelled_at no_show =
    pure (calculate_cancellation_fee confirmed_at cancelled_at no_show)

unfoldable pub handle_mark_paid :
    String → String → String → Time → M Failure (String × ProtoInvoiceStatus)
handle_mark_paid id gateway_tx_id method at = do
  inv ← map_err (status_error internal) (mark_invoice_paid id gateway_tx_id method at)
  pure (inv.invoice_id, status_paid)
