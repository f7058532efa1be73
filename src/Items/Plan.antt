-- ===== src/Items/Plan.antt =====
-- crates/zann-server/src/domains/items/service.rs: what the handlers that write compute before they do.
use zann.Base.{
  ℕ, Bool, true, false, ◌&&◌, not, Option, none, some, List, [], ◌∷◌, Text, text_eq, is_empty, trim,
  take, keep, unwrap_or, Result, ok, err, ok_or, ensure, ◌>>=◌, ◌>>◌, if◌then◌else◌,
}
use zann.Errors.{ServiceError}
use zann.Core.Structs.{Identity, Item, ItemHistory, FieldsChanged, Vault}
use zann.Core.Enums.ChangeOp
use zann.Core.Enums.ChangeType.{ChangeType}
use zann.Core.Enums.VaultEncryptionType.{VaultEncryptionType, client, server}
use zann.Crypto.Blob.{Bytes}
use zann.Crypto.Envelope.{Draws}
use zann.Crypto.Vault.{VaultCryptoError, as_code, decrypt_vault_key, encrypt_payload_bytes}
use zann.Sync.Shared.{JsonCodec}
use zann.Sync.Steps.{ActorSnapshot}
use zann.Items.Store.{ItemSite}

pub record CreateItemCommand (Json : Type 0) : Type 0 where
  pub path : Text
  pub type_id : Text
  pub tags : Option (List Text)
  pub favorite : Option Bool
  pub payload_enc : Option Bytes
  pub payload : Option Json
  pub checksum : Option Text
  pub version : Option ℕ
  pub fields_changed : Option FieldsChanged

pub record UpdateItemCommand (Json : Type 0) : Type 0 where
  pub path : Option Text
  pub name : Option Text
  pub type_id : Option Text
  pub tags : Option (List Text)
  pub favorite : Option Bool
  pub payload_enc : Option Bytes
  pub payload : Option Json
  pub checksum : Option Text
  pub version : Option ℕ
  pub base_version : Option ℕ
  pub fields_changed : Option FieldsChanged

-- The clock, the fresh ids and the draws of one request.
pub record Fresh : Type 0 where
  pub now : ℕ
  pub item_id : ℕ
  pub history_id : ℕ
  pub draws : Draws

-- What becomes of the attachments of the item before it is written.
pub data Upkeep : Type 0 where
  untouched restored : Upkeep
  removed : ℕ → Upkeep

-- An item as it is to be written, with the entry for its history.
pub record Planned : Type 0 where
  pub vault : Vault
  pub item : Item
  pub history : Option ItemHistory
  pub upkeep : Upkeep
  pub op : ChangeOp.ChangeOp

abbrev or_code : {A : Type 0} → Result VaultCryptoError A → Result ServiceError A
or_code (ok a) = ok a
or_code (err e) = err (ServiceError.internal (as_code e))

-- Without the blank ones, at most MAX_TAGS of them.
unfoldable pub clean_item_tags : List Text → Option (List Text)
unfolding trim
clean_item_tags tags =
    let kept = take 50 (keep (λ t. not (is_empty (trim t))) tags) in
    if is_empty kept then none else some kept

abbrev pub bind_tags : Option (List Text) → Option (List Text)
bind_tags none = none
bind_tags (some tags) = clean_item_tags tags

abbrev pub texts_eq : List Text → List Text → Bool
texts_eq [] [] = true
texts_eq [] (u ∷ us) = false
texts_eq (t ∷ ts) [] = false
texts_eq (t ∷ ts) (u ∷ us) = text_eq t u && texts_eq ts us

abbrev pub same_tags : Option (List Text) → Option (List Text) → Bool
same_tags none none = true
same_tags none (some u) = false
same_tags (some t) none = false
same_tags (some t) (some u) = texts_eq t u

abbrev pub same_bool : Bool → Bool → Bool
same_bool true b = b
same_bool false b = not b

-- The given checksum, which must be there.
abbrev pub given_checksum : Option Text → Result ServiceError Text
given_checksum given = do
  let checksum = trim (unwrap_or given [])
  ensure (not (is_empty checksum)) (ServiceError.bad_request "checksum_required")
  ok checksum

-- An item while an update is applied to it, and whether anything has changed.
pub record Draft : Type 0 where
  pub item : Item
  pub updated : Bool

abbrev pub require_device : Identity → Result ServiceError ℕ
require_device identity = ok_or identity.device_id (ServiceError.forbidden "device_required")

abbrev pub entry_of :
    Fresh → Identity → ℕ → ActorSnapshot → ChangeType → Option FieldsChanged → Item → ItemHistory
entry_of fresh identity device_id actor change_type fields_changed item = record {
  id = fresh.history_id;
  item_id = item.id;
  payload_enc = item.payload_enc;
  checksum = item.checksum;
  version = item.version;
  change_type = change_type;
  fields_changed = fields_changed;
  changed_by_user_id = identity.user_id;
  changed_by_email = actor.email;
  changed_by_name = actor.name;
  changed_by_device_id = some device_id;
  changed_by_device_name = actor.device_name;
  created_at = fresh.now;
}

module _ {Json : Type 0} (codec : JsonCodec Json) (site : ItemSite) where
  -- Encrypts a payload under the key of the vault.
  unfoldable pub seal_payload : Draws → Vault → ℕ → Json → Result ServiceError (Bytes × Text)
  unfolding decrypt_vault_key encrypt_payload_bytes
  seal_payload draws vault item_id payload = do
    bytes ← ok_or (codec.to_vec payload) (ServiceError.bad_request "invalid_payload")
    smk ← ok_or site.vaults.auth.server_master_key (ServiceError.internal "smk_missing")
    vault_key ← or_code (decrypt_vault_key site.vaults.auth.cipher smk vault.id vault.vault_key_enc)
    payload_enc ←
        or_code
          (encrypt_payload_bytes site.vaults.auth.cipher draws vault_key vault.id item_id bytes)
    ok (payload_enc, site.payload_checksum payload_enc)

  abbrev pub content_of :
      VaultEncryptionType
      → Fresh
      → Vault
      → CreateItemCommand Json
      → Result ServiceError (Bytes × Text)
  content_of server fresh vault cmd = do
    payload ← ok_or cmd.payload (ServiceError.bad_request "payload_required")
    seal_payload fresh.draws vault fresh.item_id payload
  content_of client fresh vault cmd = do
    payload_enc ← ok_or cmd.payload_enc (ServiceError.bad_request "payload_enc_required")
    checksum ← given_checksum cmd.checksum
    ok (payload_enc, checksum)
