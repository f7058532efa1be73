-- ===== src/Vaults/Existing.antt =====
-- crates/zann-server/src/domains/vaults/service.rs: `get_vault`, `update_vault_key` and `delete_vault`,
-- with the statements of crates/zann-db/src/repo/vaults.rs.
use zann.Base.{
  ℕ, ◌+◌, Bool, true, false, ◌&&◌, ◌||◌, not, some, ◌++◌, Text, codes, map, any, Result, ok, err,
  ok_or, ensure, ◌>>=◌, ◌>>◌, ◌==◌, if◌then◌else◌,
}
use zann.Errors.{ServiceError}
use zann.Core.Structs.{Identity, Vault}
use zann.Core.Enums.VaultEncryptionType.{VaultEncryptionType, client, server}
use zann.Access.Role.{VaultScope}
use zann.Access.Vault.{is_none, access}
use zann.Crypto.Blob.{Bytes}
use zann.Auth.Store.{AuthDb}
use zann.Auth.PersonalVault.{is_personal}
use zann.Vaults.Service.{VaultSite, VaultFaults, access_db, or_db_error, find_vault}

abbrev pub is_client : VaultEncryptionType → Bool
is_client client = true
is_client server = false

-- The rows that an `UPDATE` of a vault changes.
abbrev pub update_rows : (Vault → Bool) → (Vault → Vault) → AuthDb → AuthDb
update_rows p change db = record db { vaults = map (λ v. if p v then change v else v) db.vaults }

-- `execute`, then 404 where no row was affected.
abbrev pub run_update :
    Bool → (Vault → Bool) → (Vault → Vault) → AuthDb → Result ServiceError (Unit {0}) × AuthDb
run_update fails p change db =
    if fails
    then (err ServiceError.service_db_error, db)
    else if any p db.vaults
    then (ok tt, update_rows p change db)
    else (err ServiceError.not_found, db)

-- `VaultRepo::delete_by_id`: the row with the id and the version.
abbrev pub is_version : Vault → Vault → Bool
is_version v w = w.id == v.id && w.row_version == v.row_version

abbrev pub deleted : ℕ → Identity → Vault → Vault
deleted now identity v = record v {
  deleted_at = some now;
  deleted_by_user_id = some identity.user_id;
  deleted_by_device_id = identity.device_id;
  row_version = v.row_version + 1;
}

-- `VaultRepo::update_key_by_id`.
abbrev pub is_live : Vault → Vault → Bool
is_live v w = w.id == v.id && is_none w.deleted_at

abbrev pub with_key : Bytes → Vault → Vault
with_key vault_key_enc v = record v {
  vault_key_enc = vault_key_enc;
  row_version = v.row_version + 1;
}

module _ (site : VaultSite) (faults : VaultFaults) where
  -- The vault, for an identity that may do the action.
  unfoldable pub authorise_vault : Text → Identity → Text → AuthDb → Result ServiceError Vault
  unfolding find_vault access
  authorise_vault action identity vault_id db = do
    row ← find_vault site faults db vault_id
    vault ← ok_or row ServiceError.not_found
    permitted ← or_db_error (
        access site.auth.ext (access_db faults db) site.policies identity vault.id action
          (codes "vaults/" ++ vault_id) VaultScope.vault)
    ensure permitted ServiceError.forbidden_no_body
    ok vault

  unfoldable pub fetch_vault : Identity → Text → AuthDb → Result ServiceError Vault
  unfolding authorise_vault
  fetch_vault identity vault_id db = authorise_vault (codes "read") identity vault_id db

  abbrev write_key :
      Bytes → AuthDb → Result ServiceError Vault → Result ServiceError (Unit {0}) × AuthDb
  write_key vault_key_enc db (err e) = (err e, db)
  write_key vault_key_enc db (ok v) =
      if not (is_client v.encryption_type) || not (is_personal v.kind)
      then (err (ServiceError.bad_request "vault_key_update_not_allowed"), db)
      else run_update faults.vault_update_fails (is_live v) (with_key vault_key_enc) db

  -- Accounts of services may not write.
  abbrev pub writable : Identity → Text → AuthDb → Result ServiceError Vault
  writable identity vault_id db = do
    ensure (is_none identity.service_account_id) ServiceError.forbidden_no_body
    authorise_vault (codes "write") identity vault_id db

  unfoldable pub update_vault_key :
      Identity → Text → Bytes → AuthDb → Result ServiceError (Unit {0}) × AuthDb
  unfolding authorise_vault
  update_vault_key identity vault_id vault_key_enc db =
      write_key vault_key_enc db (writable identity vault_id db)

  abbrev pub write_deleted :
      ℕ → Identity → AuthDb → Result ServiceError Vault → Result ServiceError (Unit {0}) × AuthDb
  write_deleted now identity db (err e) = (err e, db)
  write_deleted now identity db (ok v) =
      run_update faults.vault_update_fails (is_version v) (deleted now identity) db

  unfoldable pub delete_vault :
      ℕ → Identity → Text → AuthDb → Result ServiceError (Unit {0}) × AuthDb
  unfolding authorise_vault
  delete_vault now identity vault_id db =
      write_deleted now identity db (writable identity vault_id db)
