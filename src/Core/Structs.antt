-- ===== src/Core/Structs.antt =====
-- crates/zann-core/src/models/structs.rs and auth.rs: the rows that the server works with. An id is a
-- 128-bit number, a time a number of milliseconds, a byte string a list of bytes.
use zann.Base.{ℕ, Bool, Option, List, Text}
use zann.Core.Enums.VaultKind.{VaultKind}
use zann.Core.Enums.VaultEncryptionType.{VaultEncryptionType}
use zann.Core.Enums.VaultMemberRole.{VaultMemberRole}
use zann.Core.Enums.SyncStatus.{SyncStatus}
use zann.Core.Enums.ChangeOp.{ChangeOp}
use zann.Core.Enums.ChangeType.{ChangeType}
use zann.Core.Enums.UserStatus.{UserStatus}
use zann.Core.Enums.CachePolicy.{CachePolicy}

pub data AuthSource : Type 0 where
  internal device service_account : AuthSource
  oidc : Text → Text → AuthSource

pub record Identity : Type 0 where
  pub user_id : ℕ
  pub email : Text
  pub display_name : Text
  pub avatar_url : Option Text
  pub avatar_initials : Text
  pub groups : List Text
  pub source : AuthSource
  pub device_id : Option ℕ
  pub service_account_id : Option ℕ

pub record Vault : Type 0 where
  pub id : ℕ
  pub slug : Text
  pub name : Text
  pub kind : VaultKind
  pub encryption_type : VaultEncryptionType
  pub vault_key_enc : List ℕ
  pub cache_policy : CachePolicy
  pub tags : Option (List Text)
  pub deleted_at : Option ℕ
  pub deleted_by_user_id : Option ℕ
  pub deleted_by_device_id : Option ℕ
  pub row_version : ℕ
  pub created_at : ℕ

pub record VaultMember : Type 0 where
  pub vault_id : ℕ
  pub user_id : ℕ
  pub role : VaultMemberRole
  pub created_at : ℕ

pub record ServiceAccount : Type 0 where
  pub id : ℕ
  pub owner_user_id : ℕ
  pub name : Text
  pub description : Option Text
  pub token_hash : Text
  pub token_prefix : Text
  pub scopes : List Text
  pub allowed_ips : Option (List Text)
  pub expires_at : Option ℕ
  pub last_used_at : Option ℕ
  pub last_used_ip : Option Text
  pub last_used_user_agent : Option Text
  pub use_count : ℕ
  pub created_at : ℕ
  pub revoked_at : Option ℕ

pub record User : Type 0 where
  pub id : ℕ
  pub email : Text
  pub full_name : Option Text
  pub password_hash : Option Text
  pub kdf_salt : Text
  pub kdf_algorithm : Text
  pub kdf_iterations : ℕ
  pub kdf_memory_kb : ℕ
  pub kdf_parallelism : ℕ
  pub recovery_key_hash : Option Text
  pub status : UserStatus
  pub deleted_at : Option ℕ
  pub deleted_by_user_id : Option ℕ
  pub deleted_by_device_id : Option ℕ
  pub row_version : ℕ
  pub created_at : ℕ
  pub updated_at : ℕ
  pub last_login_at : Option ℕ

pub record Device : Type 0 where
  pub id : ℕ
  pub user_id : ℕ
  pub name : Text
  pub fingerprint : Text
  pub os : Option Text
  pub os_version : Option Text
  pub app_version : Option Text
  pub last_seen_at : Option ℕ
  pub last_ip : Option Text
  pub revoked_at : Option ℕ
  pub created_at : ℕ

pub record Session : Type 0 where
  pub id : ℕ
  pub user_id : ℕ
  pub device_id : ℕ
  pub access_token_hash : Text
  pub access_expires_at : ℕ
  pub refresh_token_hash : Text
  pub expires_at : ℕ
  pub created_at : ℕ

pub record ServiceAccountSession : Type 0 where
  pub id : ℕ
  pub service_account_id : ℕ
  pub access_token_hash : Text
  pub expires_at : ℕ
  pub created_at : ℕ

pub record Item : Type 0 where
  pub id : ℕ
  pub vault_id : ℕ
  pub path : Text
  pub name : Text
  pub type_id : Text
  pub tags : Option (List Text)
  pub favorite : Bool
  pub payload_enc : List ℕ
  pub checksum : Text
  pub version : ℕ
  pub row_version : ℕ
  pub device_id : ℕ
  pub sync_status : SyncStatus
  pub deleted_at : Option ℕ
  pub deleted_by_user_id : Option ℕ
  pub deleted_by_device_id : Option ℕ
  pub created_at : ℕ
  pub updated_at : ℕ

pub record FieldsChanged : Type 0 where
  pub user_fields : List Text
  pub system_fields : List Text

pub record ItemHistory : Type 0 where
  pub id : ℕ
  pub item_id : ℕ
  pub payload_enc : List ℕ
  pub checksum : Text
  pub version : ℕ
  pub change_type : ChangeType
  pub fields_changed : Option FieldsChanged
  pub changed_by_user_id : ℕ
  pub changed_by_email : Text
  pub changed_by_name : Option Text
  pub changed_by_device_id : Option ℕ
  pub changed_by_device_name : Option Text
  pub created_at : ℕ

pub record Change : Type 0 where
  pub seq : ℕ
  pub vault_id : ℕ
  pub item_id : ℕ
  pub op : ChangeOp
  pub version : ℕ
  pub device_id : ℕ
  pub created_at : ℕ
