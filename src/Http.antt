-- ===== src/Http.antt =====
-- The HTTP side: request ids, the latency interceptor, the controllers.
pub mod Latency
pub mod Passing
pub mod Controllers
pub mod Placing
pub mod Counting
pub mod Getting
pub mod Pricing
pub mod Reports
