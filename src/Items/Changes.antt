-- ===== src/Items/Changes.antt =====
-- crates/zann-server/src/domains/items/service.rs: the items that `create_item`, `update_item`,
-- `delete_item` and `restore_item_version` write.
use zann.Base.{
  ℕ, ◌+◌, ◌*◌, ◌-◌, Bool, true, false, not, Option, none, some, List, [], ◌++◌, Text, codes,
  text_eq, is_empty, trim, unwrap_or, Result, ok, err, ok_or, ensure, ◌>>=◌, ◌>>◌, ◌==◌,
  if◌then◌else◌,
}
use zann.Errors.{ServiceError}
use zann.Core.Structs.{Identity, Item, ItemHistory, Vault}
use zann.Core.Enums.ChangeOp
use zann.Core.Enums.ChangeType
use zann.Core.Enums.SyncStatus
use zann.Core.Enums.VaultEncryptionType.{VaultEncryptionType, client, server}
use zann.Crypto.Blob.{Bytes}
use zann.Auth.Store.{unless_fails}
use zann.Sync.Paths.{basename_from_path, replace_basename}
use zann.Sync.Shared.{JsonCodec}
use zann.Sync.Steps.{next_version}
use zann.Items.Scopes.{validate_item_path}
use zann.Items.Store.{
  ItemDb, ItemSite, ItemFaults, history_at, actor_snapshot, authorize_vault_access, item_in_vault,
}
use zann.Items.Plan.{
  UpdateItemCommand, Fresh, untouched, restored, removed, Planned, Draft, bind_tags, same_tags,
  same_bool, given_checksum, seal_payload, require_device, entry_of,
}

abbrev pub is_server : VaultEncryptionType → Bool
is_server server = true
is_server client = false

-- Sets a field where it differs.
abbrev pub set_if : Bool → Item → Draft → Draft
set_if same item d = if same then d else record { item = item; updated = true }

abbrev pub apply_path : Option Text → Draft → Result ServiceError Draft
apply_path none d = ok d
apply_path (some given) d = do
  path ← validate_item_path given
  ok (set_if (text_eq path d.item.path) (record d.item { path = path }) d)

abbrev pub apply_name : Option Text → Draft → Result ServiceError Draft
apply_name none d = ok d
apply_name (some given) d = do
  let name = trim given
  ensure (not (is_empty name)) (ServiceError.bad_request "invalid_name")
  let path = replace_basename d.item.path (basename_from_path name)
  ok (set_if (text_eq path d.item.path) (record d.item { path = path }) d)

abbrev pub rename_item : Draft → Draft
rename_item d =
    if d.updated
    then record d { item = record d.item { name = basename_from_path d.item.path } }
    else d

abbrev pub apply_type : Option Text → Draft → Result ServiceError Draft
apply_type none d = ok d
apply_type (some given) d = do
  let type_id = trim given
  ensure (not (is_empty type_id)) (ServiceError.bad_request "invalid_type")
  ok (set_if (text_eq type_id d.item.type_id) (record d.item { type_id = type_id }) d)

abbrev pub apply_tags : Option (List Text) → Draft → Draft
apply_tags none d = d
apply_tags (some given) d =
    let tags = bind_tags (some given) in
    set_if (same_tags d.item.tags tags) (record d.item { tags = tags }) d

abbrev pub apply_favorite : Option Bool → Draft → Draft
apply_favorite none d = d
apply_favorite (some given) d =
    set_if (same_bool given d.item.favorite) (record d.item { favorite = given }) d

abbrev pub with_content : Draft → Bytes × Text → Draft
with_content d content = record {
  item = record d.item { payload_enc = content.0; checksum = content.1 };
  updated = true;
}

module _ (site : ItemSite) (faults : ItemFaults) (fresh : Fresh) (identity : Identity)
    (vault_id : Text) (db : ItemDb) where
  abbrev pub resource_of : ℕ → Text → Text
  resource_of item_id rest =
      codes "vaults/"
      ++ (vault_id ++ (codes "/items/" ++ (site.vaults.auth.ext.uuid_text item_id ++ rest)))

  -- The device, the vault and the item of a request to write.
  abbrev pub writable_item : ℕ → Text → Result ServiceError (ℕ × (Vault × Item))
  writable_item item_id rest = do
    device_id ← require_device identity
    vault ← authorize_vault_access site identity vault_id (codes "write") (resource_of item_id rest)
    item ← item_in_vault faults db item_id vault
    ok (device_id, (vault, item))

  abbrev entry : ℕ → ChangeType.ChangeType → Item → ItemHistory
  entry device_id change_type item =
      entry_of fresh identity device_id (actor_snapshot faults identity device_id db) change_type
        none item

  abbrev pub tombstone : ℕ → Item → Item
  tombstone device_id item = record item {
    deleted_at = some fresh.now;
    deleted_by_user_id = some identity.user_id;
    deleted_by_device_id = some device_id;
    sync_status = SyncStatus.tombstone;
    version = item.version + 1;
    device_id = device_id;
    updated_at = fresh.now;
  }

  unfoldable pub plan_delete : ℕ → Result ServiceError Planned
  unfolding item_in_vault authorize_vault_access actor_snapshot
  plan_delete item_id = do
    (device_id, (vault, item)) ← writable_item item_id []
    ok (record {
      vault = vault;
      item = tombstone device_id item;
      history = some (entry device_id ChangeType.delete item);
      upkeep = removed (fresh.now - site.attachments_gc_grace_days * 86400000);
      op = ChangeOp.delete;
    })

  abbrev pub revived : ℕ → ItemHistory → Item → Item
  revived device_id h item = record item {
    payload_enc = h.payload_enc;
    checksum = h.checksum;
    version = next_version item.version;
    device_id = device_id;
    sync_status = SyncStatus.active;
    deleted_at = none;
    deleted_by_user_id = none;
    deleted_by_device_id = none;
    updated_at = fresh.now;
  }

  unfoldable pub plan_restore : ℕ → Text → ℕ → Result ServiceError Planned
  unfolding item_in_vault authorize_vault_access actor_snapshot history_at
  plan_restore item_id version_text version = do
    (device_id, (vault, item)) ←
        writable_item item_id (codes "/versions/" ++ (version_text ++ codes "/restore"))
    row ←
        unless_fails faults.history_read_fails ServiceError.service_db_error
          (history_at db item.id version)
    h ← ok_or row ServiceError.not_found
    ensure (not (text_eq h.checksum item.checksum)) (ServiceError.bad_request "no_changes")
    ok (record {
      vault = vault;
      item = revived device_id h item;
      history = some (entry device_id ChangeType.restore item);
      upkeep = if text_eq item.type_id (codes "file_secret") then restored else untouched;
      op = ChangeOp.update;
    })

  module _ {Json : Type 0} (codec : JsonCodec Json) where
    abbrev pub apply_payload :
        Vault → Option Json → Option Bytes → Option Text → Draft → Result ServiceError Draft
    apply_payload vault (some payload) payload_enc checksum d = do
      ensure (is_server vault.encryption_type) (ServiceError.bad_request "plaintext_not_allowed")
      content ← seal_payload codec site fresh.draws vault d.item.id payload
      ok (with_content d content)
    apply_payload vault none (some payload_enc) checksum d = do
      checksum ← given_checksum checksum
      ok (with_content d (payload_enc, checksum))
    apply_payload vault none none (some checksum) d =
        err (ServiceError.bad_request "checksum_without_payload")
    apply_payload vault none none none d = ok d

    -- The item with the changes of an update.
    unfoldable pub edit : Vault → UpdateItemCommand Json → Item → Result ServiceError Item
    unfolding validate_item_path replace_basename basename_from_path seal_payload trim
    edit vault cmd item = do
      d ← apply_path cmd.path (record { item = item; updated = false })
      d ← apply_name cmd.name d
      d ← apply_type cmd.type_id (rename_item d)
      d ←
          apply_payload vault cmd.payload cmd.payload_enc cmd.checksum
            (apply_favorite cmd.favorite (apply_tags cmd.tags d))
      ensure d.updated (ServiceError.bad_request "no_changes")
      ok d.item

    abbrev payload_history : ℕ → UpdateItemCommand Json → Item → Item → Option ItemHistory
    payload_history device_id cmd old new =
        if text_eq new.checksum old.checksum
        then none
        else some
            (record (entry device_id ChangeType.update old) { fields_changed = cmd.fields_changed })

    unfoldable pub plan_update : ℕ → UpdateItemCommand Json → Result ServiceError Planned
    unfolding edit item_in_vault authorize_vault_access actor_snapshot
    plan_update item_id cmd = do
      (device_id, (vault, item)) ← writable_item item_id []
      ensure (unwrap_or cmd.base_version item.version == item.version)
          (ServiceError.conflict "version_conflict")
      new ← edit vault cmd item
      ok (record {
        vault = vault;
        item = record new {
          version = unwrap_or cmd.version (item.version + 1);
          device_id = device_id;
          updated_at = fresh.now;
        };
        history = payload_history device_id cmd item new;
        upkeep = untouched;
        op = ChangeOp.update;
      })
