-- ===== src/Notification.antt =====
-- services/notification: what drivers are told, and the log of it.
pub mod Domain
pub mod Repository
pub mod Handler
pub mod Subscriber
pub mod Delivery
