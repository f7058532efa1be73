-- ===== src/Items.antt =====
-- crates/zann-server/src/domains/items/service.rs: items beside the synchronisation.
pub mod Scopes
pub mod Store
pub mod Read
pub mod Plan
pub mod Changes
pub mod Write
pub mod Edited
pub mod Written
pub mod Deleted
pub mod Covered
pub mod Listed
pub mod Newest
pub mod History
pub mod Updated
mod Tests
mod HistoryTests
