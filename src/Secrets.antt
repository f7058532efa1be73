-- ===== src/Secrets.antt =====
-- crates/zann-server/src/domains/secrets: the policies of generated secrets.
pub mod Policies
pub mod Generated
mod Tests
