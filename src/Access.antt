-- ===== src/Access.antt =====
-- crates/zann-server/src/domains/access_control: who may do what.
pub mod Policy
pub mod Role
pub mod Pattern
pub mod Scope
pub mod Vault
mod Tests
