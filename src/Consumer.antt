-- ===== src/Consumer.antt =====
-- src/messaging/order-notification.consumer.ts.
pub mod Handler
pub mod Ledger
pub mod Settling
pub mod Redelivery
pub mod Locking
pub mod Exclusion
pub mod Racing
pub mod Lifecycle
