-- ===== src/Vaults.antt =====
-- crates/zann-server/src/domains/vaults/service.rs: the vaults, beside those of a login.
pub mod Service
pub mod Existing
pub mod Creation
pub mod Absent
pub mod Deletion
mod Tests
