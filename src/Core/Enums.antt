-- ===== src/Core/Enums.antt =====
-- crates/zann-core/src/models/enums.rs and services.rs: one module for each enumeration.
pub mod VaultKind
pub mod VaultMemberRole
pub mod VaultEncryptionType
pub mod CachePolicy
pub mod ChangeOp
pub mod UserStatus
pub mod SyncStatus
pub mod ChangeType
pub mod StorageKind
pub mod AuthMethod
