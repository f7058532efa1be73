-- ===== src/Sync/Branches.antt =====
-- crates/zann-server/src/domains/sync/http/v1/handlers/push_apply.rs: the branches of
-- `match (operation, existing)` in `apply_change`.
use zann.Base.{
  ℕ, Bool, true, false, ◌||◌, not, Option, none, some, List, Text, text_eq, is_empty, trim,
  unwrap_or, if◌then◌else◌,
}
use zann.Core.Structs.{Item}
use zann.Core.Enums.ChangeType.{ChangeType}
use zann.Core.Enums.SyncStatus
use zann.Sync.Paths.{nonblank, normalize_path_and_name}
use zann.Sync.Store.{insert_item}
use zann.Sync.Action.{SyncPushChange, Action, ◌>>=◌, ◌>>◌, give, must, require}
use zann.Sync.Steps.{
  Context, Outcome, proceed, stop, next_version, conflict_of, find_path_conflict, actor_snapshot,
  record_history, store_item,
}

module _ (ctx : Context) where
  open ctx use {ext, identity, device_id, vault_id, now, history_id}

  -- `(ChangeType::Create, None)`
  unfoldable pub create_item : Option ℕ → SyncPushChange → Action Outcome
  create_item server_seq change = do
    payload_enc ← require change.payload_enc "missing_payload"
    checksum ← require (nonblank change.checksum) "missing_checksum"
    path ← require (nonblank change.path) "missing_path"
    let (path, name) = normalize_path_and_name path (some path) change.name
    type_id ← require (nonblank change.type_id) "missing_type_id"
    taken ← find_path_conflict ctx path none
    elim taken [
      | some updated_at ↦
          give (stop (conflict_of ctx change.item_id "already_exists" server_seq updated_at))
      | none ↦ do
        must (
            insert_item (record {
              id = change.item_id;
              vault_id = vault_id;
              path = path;
              name = name;
              type_id = type_id;
              tags = none;
              favorite = false;
              payload_enc = payload_enc;
              checksum = checksum;
              version = 1;
              row_version = 1;
              device_id = device_id;
              sync_status = SyncStatus.active;
              deleted_at = none;
              deleted_by_user_id = none;
              deleted_by_device_id = none;
              created_at = now;
              updated_at = now;
            }))
        give (proceed 1)
    ]

  unfoldable pub payload_changed : Option (List ℕ) → Option Text → Item → Bool
  payload_changed (some payload) (some checksum) item =
      is_empty (trim checksum) || not (text_eq (trim checksum) item.checksum)
  payload_changed (some payload) none item = true
  payload_changed none checksum item = false

  -- What `Update` and `Restore` write besides the path and the name.
  abbrev pub with_content : SyncPushChange → Item → Item
  with_content change item = record item {
    type_id = unwrap_or (nonblank change.type_id) item.type_id;
    payload_enc = unwrap_or change.payload_enc item.payload_enc;
    checksum = unwrap_or (nonblank change.checksum) item.checksum;
    version = next_version item.version;
    row_version = next_version item.row_version;
    device_id = device_id;
    updated_at = now;
  }

  -- `(ChangeType::Update, Some(item))`
  unfoldable pub update_existing : Option ℕ → SyncPushChange → Item → Action Outcome
  update_existing server_seq change item = do
    let changed = payload_changed change.payload_enc change.checksum item
    let (next_path, next_name) = normalize_path_and_name item.path change.path change.name
    taken ← find_path_conflict ctx next_path (some item.id)
    elim taken [
      | some updated_at ↦
          give (stop (conflict_of ctx item.id "already_exists" server_seq updated_at))
      | none ↦ do
        actor ← actor_snapshot identity device_id
        if changed then record_history ctx item ChangeType.update actor else give tt
        store_item ctx server_seq
            (record (with_content change item) { path = next_path; name = next_name })
    ]

  -- `(ChangeType::Restore, Some(item))`
  unfoldable pub restore_existing : Option ℕ → SyncPushChange → Item → Action Outcome
  restore_existing server_seq change item = do
    actor ← actor_snapshot identity device_id
    record_history ctx item ChangeType.restore actor
    store_item ctx server_seq (record (with_content change item) {
      path = unwrap_or (nonblank change.path) item.path;
      name = unwrap_or (nonblank change.name) item.name;
      sync_status = SyncStatus.active;
      deleted_at = none;
      deleted_by_user_id = none;
      deleted_by_device_id = none;
    })

  -- `(ChangeType::Delete, Some(item))`
  unfoldable pub delete_existing : Option ℕ → Item → Action Outcome
  delete_existing server_seq item = do
    actor ← actor_snapshot identity device_id
    record_history ctx item ChangeType.delete actor
    store_item ctx server_seq (record item {
      version = next_version item.version;
      row_version = next_version item.row_version;
      device_id = device_id;
      sync_status = SyncStatus.tombstone;
      deleted_at = some now;
      deleted_by_user_id = some identity.user_id;
      deleted_by_device_id = some device_id;
      updated_at = now;
    })

  -- `match (operation, existing)`
  unfoldable pub apply_operation :
      ChangeType → Option Item → Option ℕ → SyncPushChange → Action Outcome
  apply_operation ChangeType.create none server_seq change = create_item server_seq change
  apply_operation ChangeType.create (some item) server_seq change =
      give (stop (conflict_of ctx change.item_id "already_exists" server_seq now))
  apply_operation ChangeType.update (some item) server_seq change =
      update_existing server_seq change item
  apply_operation ChangeType.restore (some item) server_seq change =
      restore_existing server_seq change item
  apply_operation ChangeType.delete (some item) server_seq change = delete_existing server_seq item
  apply_operation _ none server_seq change =
      give (stop (conflict_of ctx change.item_id "missing_item" server_seq now))
