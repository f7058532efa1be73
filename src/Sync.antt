-- ===== src/Sync.antt =====
-- crates/zann-server/src/domains/sync: synchronisation of client vaults with the server.
pub mod Paths
pub mod Store
pub mod Action
pub mod Steps
pub mod Branches
pub mod Apply
pub mod Push
pub mod Triple
pub mod Frame
pub mod HistoryBound
pub mod Sequence
pub mod Recorded
pub mod Reported
pub mod Stale
pub mod Total
pub mod Delete
pub mod Kept
pub mod Logged
pub mod Transaction
pub mod Authorised
pub mod Pull
pub mod Shared
pub mod Fixtures
mod Tests
pub mod Pruning
