-- ===== src/Payment/Domain.antt =====
-- services/payment/internal/domain/domain.go.
use parkirpintar.Common.{ℕ, Option, String}
use parkirpintar.Common.Time.{Time}

pub data TransactionStatus : Type 0 where
  pending settled failed expired refunded : TransactionStatus

pub record Transaction : Type 0 where
  pub transaction_id : String
  pub invoice_id : String
  pub driver_id : String
  pub gateway_tx_id : String
  pub payment_method : String
  pub status : TransactionStatus
  pub amount : ℕ
  pub payment_url : String
  pub qr_string : String
  pub va_number : String
  pub va_bank : String
  pub idempotency_key : String
  pub created_at : Time
  pub paid_at : Option Time
  pub expired_at : Option Time

pub record CustomerInfo : Type 0 where
  pub name : String
  pub email : String
  pub phone : String
