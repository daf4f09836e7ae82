-- ===== src/Gateway.antt =====
-- internal/gateway: the message pipeline.
pub mod Resolver
pub mod Dedup
pub mod Registry
pub mod Delivery
pub mod Dispatcher
pub mod Collect
pub mod Router
pub mod Heartbeats
pub mod HealthMonitor
