-- ===== src/Epics.antt =====
-- What the crates that repics only calls are taken to promise: parameters of the other modules.
pub mod BitSet
pub mod Pvdata
pub mod Client
pub mod Database
pub mod Shared
