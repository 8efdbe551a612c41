-- ===== src/Ca.antt =====
-- src/ca.rs: the Channel Access client.
pub mod Counts
pub mod Drain
pub mod Batches
pub mod Access
pub mod Examples
