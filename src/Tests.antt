-- ===== src/Tests.antt =====
-- A database in memory that meets the laws, and the theorems at concrete inputs.
mod Memory
mod Orders
mod Messages
mod Outbox
mod RabbitMq
mod Consumers
mod Http
mod Products
mod Seed
mod Locking
mod Cycles
mod Delivered
