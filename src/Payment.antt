-- ===== src/Payment.antt =====
-- services/payment: the transactions, their queries, the gateway, the use cases, the webhook.
pub mod Domain
pub mod Repository
pub mod Gateway
pub mod Usecase
pub mod Handler
pub mod Webhooks
pub mod Charges
pub mod Midtrans
