-- ===== src/Auth.antt =====
-- crates/zann-server/src/domains/auth: sessions of users and of service accounts, and the identities
-- that requests carry.
pub mod Store
pub mod Display
pub mod Identify
pub mod Session
pub mod PersonalVault
pub mod Login
pub mod Account
pub mod Keyed
pub mod Renewal
pub mod Authentic
pub mod LoggedIn
pub mod LockedOut
pub mod Fixtures
mod Tests
