-- ===== src/Core/Conversions.antt =====
-- crates/zann-core/src/models/enums.rs and services.rs: the conversions of all enumerations together.
use zann.Core.EnumCodec.{IsCodec}
use zann.Core.Enums.VaultKind
use zann.Core.Enums.VaultMemberRole
use zann.Core.Enums.VaultEncryptionType
use zann.Core.Enums.CachePolicy
use zann.Core.Enums.ChangeOp
use zann.Core.Enums.UserStatus
use zann.Core.Enums.SyncStatus
use zann.Core.Enums.ChangeType
use zann.Core.Enums.StorageKind
use zann.Core.Enums.AuthMethod

-- For each of the ten enumerations, reading the number of a value gives the value back, and a number
-- that is read as a value is that value's number: every other number is an error.
pub enums-IsCodec :
    IsCodec VaultKind.as_i32 VaultKind.try_from
    × IsCodec VaultMemberRole.as_i32 VaultMemberRole.try_from
    × IsCodec VaultEncryptionType.as_i32 VaultEncryptionType.try_from
    × IsCodec CachePolicy.as_i32 CachePolicy.try_from
    × IsCodec ChangeOp.as_i32 ChangeOp.try_from
    × IsCodec UserStatus.as_i32 UserStatus.try_from
    × IsCodec SyncStatus.as_i32 SyncStatus.try_from
    × IsCodec ChangeType.as_i32 ChangeType.try_from
    × IsCodec StorageKind.as_i32 StorageKind.try_from
    × IsCodec AuthMethod.as_i32 AuthMethod.try_from
enums-IsCodec = (
  VaultKind.VaultKind-IsCodec, VaultMemberRole.VaultMemberRole-IsCodec,
  VaultEncryptionType.VaultEncryptionType-IsCodec, CachePolicy.CachePolicy-IsCodec,
  ChangeOp.ChangeOp-IsCodec, UserStatus.UserStatus-IsCodec, SyncStatus.SyncStatus-IsCodec,
  ChangeType.ChangeType-IsCodec, StorageKind.StorageKind-IsCodec, AuthMethod.AuthMethod-IsCodec,
)
