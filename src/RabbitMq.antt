-- ===== src/RabbitMq.antt =====
-- src/messaging/rabbitmq.service.ts: how the service connects, reconnects and shuts down.
pub mod Service
pub mod System
pub mod Steady
pub mod Recovery
pub mod Shutdown
