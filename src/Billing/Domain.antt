-- ===== src/Billing/Domain.antt =====
-- services/billing/internal/domain/domain.go. `created_at` of a row is the database's default,
-- the instant of the insertion.
use parkirpintar.Common.{ℕ, Bool, Option, String}
use parkirpintar.Common.Int.{ℤ}
use parkirpintar.Common.Time.{Time}

pub data InvoiceStatus : Type 0 where
  draft pending_payment paid void : InvoiceStatus

pub data InvoiceType : Type 0 where
  booking_fee_type parking_session : InvoiceType

pub record Invoice : Type 0 where
  pub invoice_id : String
  pub kind : InvoiceType
  pub session_id : String
  pub reservation_id : String
  pub driver_id : String
  pub booking_fee : ℕ
  pub parking_fee : ℕ
  pub overnight_fee : ℕ
  pub total_amount : ℕ
  pub billed_hours : ℕ
  pub is_overnight : Bool
  pub duration_mins : ℤ
  pub status : InvoiceStatus
  pub gateway_tx_id : String
  pub payment_method : String
  pub created_at : Time
  pub paid_at : Option Time
  pub idempotency_key : String
