-- ===== src/PvaHub.antt =====
-- src/pva/hub.rs: many monitors, one wake.
pub mod Monitor
pub mod Hub
