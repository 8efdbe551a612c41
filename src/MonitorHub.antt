-- ===== src/MonitorHub.antt =====
-- src/hub.rs: many subscriptions, one stream.
pub mod Subscription
pub mod Hub
pub mod Examples
