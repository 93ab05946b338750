-- ===== src/Order.antt =====
-- src/order: the repositories over Prisma, the unit of work, and the service of orders.
pub mod Repository
pub mod Service
pub mod Stock
