-- ===== src/PvaServer.antt =====
-- The pvAccess server: src/pva/server.rs.
pub mod Operation
pub mod Entry
pub mod Source
pub mod Requests
pub mod Config
pub mod Examples
