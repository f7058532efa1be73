-- ===== src/Rotation.antt =====
-- crates/zann-server/src/domains/vaults/http/v1/shared: rotation of the password of an item in a
-- shared vault that the server encrypts.
pub mod Types
pub mod Password
pub mod Store
pub mod Authorise
pub mod Start
pub mod Read
pub mod Abort
pub mod Commit
pub mod Steps
pub mod Inversion
pub mod Outcome
pub mod Written
pub mod Placed
pub mod Committed
pub mod Machine
pub mod Readers
pub mod Writers
pub mod Moves
pub mod Expired
pub mod Strong
pub mod Fixtures
mod Tests
