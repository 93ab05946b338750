-- ===== src/Outbox.antt =====
-- The transactional outbox: its repository and its publisher.
pub mod Repository
pub mod Publisher
pub mod Ledger
pub mod Sending
pub mod Publishing
pub mod Progress
pub mod Reading
pub mod Told
pub mod Telling
pub mod Known
pub mod Active
pub mod Cycles
