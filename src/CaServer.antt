-- ===== src/CaServer.antt =====
-- src/ca_server.rs: the Channel Access server.
pub mod Operation
pub mod WorkQueue
pub mod Entry
pub mod Provider
pub mod Port
pub mod Examples
