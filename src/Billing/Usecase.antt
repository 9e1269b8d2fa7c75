-- ===== src/Billing/Usecase.antt =====
-- services/billing/internal/usecase/usecase.go. The log lines are left out.
use parkirpintar.Common.{ℕ, Bool, false, none, some, String, ◌⧺◌, eqb, if◌then◌else◌}
use parkirpintar.Common.Int.{pos}
use parkirpintar.Common.Time.{Time, sub_time, minutes}
use parkirpintar.World.{M, pure, ◌>>=◌, ◌>>◌, wrap, quiet, now, new_uuid}
use parkirpintar.Shared.Idempotency.{check, save, default_ttl}
use parkirpintar.Pricing.{Bill, calculate}
use parkirpintar.Pricing
use parkirpintar.Billing.Domain.{Invoice, pending_payment, booking_fee_type, parking_session}
use parkirpintar.Billing.Repository.{insert_invoice, get_invoice, get_by_idempotency_key, mark_paid}

unfoldable pub idempotency_entry : String → String
idempotency_entry key = "idempotency:" ⧺ key

-- The invoice of a parking session.
unfoldable pub session_invoice :
    String → String → String → String → String → Time → Time → Time → Invoice
session_invoice id session reservation driver key check_in check_out created =
    let bill = calculate check_in check_out in
    record {
      invoice_id = id;
      kind = parking_session;
      session_id = session;
      reservation_id = reservation;
      driver_id = driver;
      booking_fee = bill.booking;
      parking_fee = bill.parking;
      overnight_fee = bill.overnight;
      total_amount = bill.total;
      billed_hours = bill.hours;
      is_overnight = bill.is_overnight;
      duration_mins = minutes (sub_time check_out check_in);
      status = pending_payment;
      gateway_tx_id = "";
      payment_method = "";
      created_at = created;
      paid_at = none;
      idempotency_key = key;
    }

-- GenerateInvoice past the idempotency check.
unfoldable pub generate_fresh : String → String → String → String → Time → Time → M String Invoice
generate_fresh session reservation driver key check_in check_out = do
  id ← new_uuid
  at ← now
  let inv = session_invoice id session reservation driver key check_in check_out at
  wrap "insert invoice: " (insert_invoice inv)
  quiet (save (idempotency_entry key) id default_ttl)
  pure inv

unfoldable pub generate_invoice : String → String → String → String → Time → Time → M String Invoice
generate_invoice session reservation driver key check_in check_out = do
  cached ← wrap "idempotency check: " (check (idempotency_entry key))
  elim cached [
    | some _ ↦ get_by_idempotency_key key
    | none ↦ generate_fresh session reservation driver key check_in check_out
  ]

unfoldable pub booking_invoice : String → String → String → String → Time → Invoice
booking_invoice id reservation driver key created = record {
  invoice_id = id;
  kind = booking_fee_type;
  session_id = "";
  reservation_id = reservation;
  driver_id = driver;
  booking_fee = Pricing.booking_fee;
  parking_fee = 0;
  overnight_fee = 0;
  total_amount = Pricing.booking_fee;
  billed_hours = 0;
  is_overnight = false;
  duration_mins = pos 0;
  status = pending_payment;
  gateway_tx_id = "";
  payment_method = "";
  created_at = created;
  paid_at = none;
  idempotency_key = key;
}

unfoldable pub generate_booking_fresh : String → String → String → M String Invoice
generate_booking_fresh reservation driver key = do
  id ← new_uuid
  at ← now
  let inv = booking_invoice id reservation driver key at
  wrap "insert booking fee invoice: " (insert_invoice inv)
  quiet (save (idempotency_entry key) id default_ttl)
  pure inv

unfoldable pub generate_booking_fee_invoice : String → String → String → M String Invoice
generate_booking_fee_invoice reservation driver key = do
  cached ← wrap "idempotency check: " (check (idempotency_entry key))
  elim cached [
    | some _ ↦ get_by_idempotency_key key
    | none ↦ generate_booking_fresh reservation driver key
  ]

unfoldable pub preview_billing : Time → M String Bill
preview_billing check_in = do t ← now; pure (calculate check_in t)

-- The fee with its reason; the switch has no default, and leaves another fee without a reason.
unfoldable pub calculate_cancellation_fee : Time → Time → Bool → ℕ × String
calculate_cancellation_fee confirmed_at cancelled_at no_show =
    let fee = Pricing.calculate_cancellation_fee confirmed_at cancelled_at no_show in
    (
      fee,
      if eqb fee 0
          then (if no_show
              then "No-show — booking fee already charged at confirmation, no extra charge"
              else "Cancelled within 2 minutes of confirmation — no fee")
          else if eqb fee 5000
          then "Cancelled after 2 minutes before check-in — 5.000 IDR"
          else "",
    )

unfoldable pub mark_invoice_paid : String → String → String → Time → M String Invoice
mark_invoice_paid id gateway_tx_id method at = do
  wrap "mark paid: " (mark_paid id gateway_tx_id method at)
  get_invoice id
