-- ===== src/Rotation/Authorise.antt =====
-- crates/zann-server/src/domains/vaults/http/v1/shared/handlers: what every rotation handler does
-- before its own work, and its use of the keys.
use zann.Base.{
  ℕ, Option, none, Text, Result, ok, err, ok_or, ensure, ◌>>=◌, ◌>>◌, to_utf8, from_utf8, String,
  if◌then◌else◌,
}
use zann.Core.Structs.{Identity, Vault, Item}
use zann.Access.Role.{items}
use zann.Access.Vault.{get_vault, access, is_none, is_shared_server_vault}
use zann.Crypto.Blob.{Bytes}
use zann.Crypto.Envelope.{Draws}
use zann.Crypto.Vault.{
  VaultCryptoError, as_code, decrypt_vault_key, encrypt_rotation_candidate as seal_candidate,
  decrypt_rotation_candidate as unseal_candidate,
}
use zann.Rotation.Types.{
  HttpError, bare, coded, db_error, RotationRow, forbidden, not_found, internal_server_error,
}
use zann.Rotation.Store.{Site, ItemRow, RotationDb, RotationFaults, find_row, fetch_rotation_row}

-- `.await.ok().flatten()`.
abbrev ok_flat : {E A : Type 0} → Result E (Option A) → Option A
ok_flat (ok r) = r
ok_flat (err e) = none

abbrev pub or_db_error : {E A : Type 0} → Result E A → Result HttpError A
or_db_error (ok a) = ok a
or_db_error (err e) = err db_error

-- `Err(_) => …`, with the code of the answer.
abbrev pub or_error : {E A : Type 0} → Result E A → HttpError → Result HttpError A
or_error (ok a) e = ok a
or_error (err _) e = err e

abbrev pub map_code : {A : Type 0} → Result VaultCryptoError A → Result String A
map_code (ok a) = ok a
map_code (err e) = err (as_code e)

abbrev fetch_item : RotationFaults → ℕ → RotationDb → Result HttpError (Option ItemRow)
fetch_item faults item_id db = if faults.item_fails then err db_error else ok (find_row item_id db)

module _ (site : Site) where
  -- The item and its vault, for an identity that may do the action.
  unfoldable pub authorise :
      RotationFaults → Identity → ℕ → Text → Text → RotationDb → Result HttpError (Item × Vault)
  authorise faults identity item_id action resource db = do
    ensure (is_none identity.service_account_id) (bare forbidden)
    row ← fetch_item faults item_id db
    row ← ok_or row (bare not_found)
    vault ← ok_or (ok_flat (get_vault site.access_db row.item.vault_id)) (bare not_found)
    ensure (is_shared_server_vault vault) (bare not_found)
    permitted ←
        or_db_error
          (access site.ext site.access_db site.policies identity vault.id action resource items)
    ensure permitted (bare forbidden)
    ok (row.item, vault)

  unfoldable pub master_key : Result HttpError Bytes
  master_key = ok_or site.server_master_key (coded internal_server_error "server_key_missing")

  unfoldable pub rotation_of : RotationFaults → ℕ → RotationDb → Result HttpError RotationRow
  rotation_of faults item_id db = do
    row ← or_db_error (fetch_rotation_row faults item_id db)
    ok_or row (coded internal_server_error "rotation_missing")

  unfoldable pub encrypt_rotation_candidate : Draws → Bytes → Vault → ℕ → Text → Result String Bytes
  encrypt_rotation_candidate draws smk vault item_id candidate = do
    vault_key ← map_code (decrypt_vault_key site.cipher smk vault.id vault.vault_key_enc)
    map_code (seal_candidate site.cipher draws vault_key vault.id item_id (to_utf8 candidate))

  unfoldable pub decrypt_rotation_candidate : Bytes → Vault → ℕ → Bytes → Result String Text
  decrypt_rotation_candidate smk vault item_id candidate_enc = do
    vault_key ← map_code (decrypt_vault_key site.cipher smk vault.id vault.vault_key_enc)
    bytes ← map_code (unseal_candidate site.cipher vault_key vault.id item_id candidate_enc)
    ok_or (from_utf8 bytes) "candidate_invalid"
