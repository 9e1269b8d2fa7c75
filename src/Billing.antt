-- ===== src/Billing.antt =====
-- services/billing: the invoices, their queries, the use cases, the subscriber, the handler.
pub mod Domain
pub mod Repository
pub mod Usecase
pub mod Subscriber
pub mod Handler
pub mod Invoicing
pub mod Checkouts
