-- ===== src/Sync/Shared.antt =====
-- crates/zann-server/src/domains/sync/service.rs: synchronisation of the shared vaults whose payloads
-- the server encrypts. The JSON of a payload is a type with its `serde_json` functions.
pub mod Pull
pub mod Sealed
mod Tests
use zann.Base.{
  ℕ, suc, ◌≡◌, Bool, true, false, ℤ, Option, none, some, List, [], ◌∷◌, Text, codes, is_empty, trim,
  String, Result, ok, err, ok_or, ensure, ◌>>=◌, ◌>>◌, if◌then◌else◌,
}
use zann.Errors.{ServiceError}
use zann.Core.Structs.{Identity, Vault}
use zann.Core.Enums.ChangeType.{ChangeType}
use zann.Access.Role.{sync}
use zann.Access.Vault.{SqlError, get_vault, access, is_shared_server_vault}
use zann.Crypto.Blob.{Bytes}
use zann.Crypto.Envelope.{Cipher, Draws}
use zann.Crypto.Vault.{
  VaultCryptoError, decrypt_vault_key, encrypt_payload_bytes, decrypt_payload_bytes,
}
use zann.Sync.Action.{SyncPushChange}
use zann.Sync.Push.{Server, PushFaults, SyncPushResult, sync_push}

-- `serde_json::to_vec` and `serde_json::from_slice` of a value.
pub record JsonCodec (Json : Type 0) : Type 0 where
  pub to_vec : Json → Option Bytes
  pub from_slice : Bytes → Option Json

-- What crate serde_json documents: a value that is written can be read.
pub record IsJsonCodec {Json : Type 0} (codec : JsonCodec Json) : Type 0 where
  pub reads :
      (value : Json) (bytes : Bytes)
      → codec.to_vec value ≡ some bytes
      → codec.from_slice bytes ≡ some value

-- What the shared handlers use besides the server: the cipher, `payload_checksum`, the master key.
pub record Keys : Type 0 where
  pub cipher : Cipher
  pub payload_checksum : Bytes → Text
  pub server_master_key : Option Bytes

pub record SyncSharedPushChange (Json : Type 0) : Type 0 where
  pub item_id : ℕ
  pub operation : ChangeType
  pub payload : Option Json
  pub path : Option Text
  pub name : Option Text
  pub type_id : Option Text
  pub base_seq : Option ℤ

abbrev pub or_db_error {ℓ} : {A : Type ℓ} → Result SqlError A → Result ServiceError A
or_db_error (ok a) = ok a
or_db_error (err e) = err ServiceError.service_db_error

-- `Err(_) => return Err(Internal(code))`.
abbrev pub or_internal {ℓ} :
    {A : Type ℓ} → String → Result VaultCryptoError A → Result ServiceError A
or_internal code (ok a) = ok a
or_internal code (err e) = err (ServiceError.internal code)

-- The vault of a shared request and the master key, for an identity that may do the action.
unfoldable pub prepare_shared :
    Server → Keys → Identity → ℕ → Text → Text → Result ServiceError (Vault × Bytes)
prepare_shared server keys identity vault_id action resource = do
  _ ← ok_or identity.device_id ServiceError.device_required
  row ← or_db_error (get_vault server.access_db vault_id)
  vault ← ok_or row ServiceError.not_found
  ensure (is_shared_server_vault vault) (ServiceError.bad_request "vault_not_shared")
  smk ← ok_or keys.server_master_key (ServiceError.internal "smk_missing")
  permitted ←
      or_db_error
        (access server.ext server.access_db server.policies identity vault.id action resource sync)
  ensure permitted ServiceError.forbidden_no_body
  ok (vault, smk)

abbrev pub is_delete : ChangeType → Bool
is_delete ChangeType.delete = true
is_delete _ = false

-- `type_id.trim()`, which must not be empty.
abbrev pub require_type : Option Text → Result ServiceError Text
require_type none = err (ServiceError.bad_request "missing_type_id")
require_type (some type_id) =
    if is_empty (trim type_id)
    then err (ServiceError.bad_request "missing_type_id")
    else ok (trim type_id)

module _ {Json : Type 0} (codec : JsonCodec Json) (keys : Keys) where
  -- `decrypt_payload_bytes`, then `from_slice`.
  unfoldable pub read_payload : Bytes → ℕ → ℕ → Bytes → Result ServiceError Json
  read_payload vault_key vault_id item_id payload_enc = do
    bytes ←
        or_internal "payload_decrypt_failed"
          (decrypt_payload_bytes keys.cipher vault_key vault_id item_id payload_enc)
    ok_or (codec.from_slice bytes) (ServiceError.internal "payload_decrypt_failed")

  abbrev pub delete_change : SyncSharedPushChange Json → SyncPushChange
  delete_change change = record {
    item_id = change.item_id;
    operation = change.operation;
    payload_enc = none;
    checksum = none;
    path = change.path;
    name = change.name;
    type_id = change.type_id;
    base_seq = change.base_seq;
  }

  -- A change that is not a deletion, with its payload encrypted.
  unfoldable pub seal_change :
      Draws → Vault → Bytes → SyncSharedPushChange Json → Result ServiceError SyncPushChange
  seal_change draws vault smk change = do
    payload ← ok_or change.payload (ServiceError.bad_request "missing_payload")
    type_id ← require_type change.type_id
    payload_bytes ← ok_or (codec.to_vec payload) (ServiceError.bad_request "invalid_payload")
    vault_key ←
        or_internal "payload_encrypt_failed"
          (decrypt_vault_key keys.cipher smk vault.id vault.vault_key_enc)
    payload_enc ←
        or_internal "payload_encrypt_failed"
          (encrypt_payload_bytes keys.cipher draws vault_key vault.id change.item_id payload_bytes)
    ok (record {
      item_id = change.item_id;
      operation = change.operation;
      payload_enc = some payload_enc;
      checksum = some (keys.payload_checksum payload_enc);
      path = change.path;
      name = change.name;
      type_id = some type_id;
      base_seq = change.base_seq;
    })

  -- The loop over the changes; the `i`-th encryption draws `draws i`.
  unfoldable pub seal_changes :
      (ℕ → Draws)
      → ℕ
      → Vault
      → Bytes
      → List (SyncSharedPushChange Json)
      → Result ServiceError (List SyncPushChange)
  unfolding seal_change
  seal_changes draws i vault smk [] = ok []
  seal_changes draws i vault smk (change ∷ changes) = do
    sealed ←
        (if is_delete change.operation
          then ok (delete_change change)
          else seal_change (draws i) vault smk change)
    rest ← seal_changes draws (suc i) vault smk changes
    ok (sealed ∷ rest)

-- `sync_push`, where the changes could be encrypted.
abbrev push_sealed :
    Server
    → PushFaults
    → Identity
    → ℕ
    → ℕ
    → ℕ
    → Result ServiceError (List SyncPushChange)
    → Result ServiceError SyncPushResult × Server
push_sealed server faults identity vault_id now fresh (err e) = (err e, server)
push_sealed server faults identity vault_id now fresh (ok changes) =
    sync_push server faults identity vault_id now fresh changes

unfoldable pub sync_shared_push :
    {Json : Type 0}
    → JsonCodec Json
    → Keys
    → Server
    → PushFaults
    → Identity
    → ℕ
    → ℕ
    → ℕ
    → (ℕ → Draws)
    → List (SyncSharedPushChange Json)
    → Result ServiceError SyncPushResult × Server
unfolding prepare_shared seal_changes
sync_shared_push codec keys server faults identity vault_id now fresh draws changes =
    push_sealed server faults identity vault_id now fresh (
      prepare_shared server keys identity vault_id (codes "write") (codes "sync/shared/push")
      >>= λ prep. seal_changes codec keys draws 0 prep.0 prep.1 changes)
