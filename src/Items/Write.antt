-- ===== src/Items/Write.antt =====
-- crates/zann-server/src/domains/items/service.rs: `create_item`, `update_item`, `delete_item` and
-- `restore_item_version`.
use zann.Base.{
  ℕ, false, ◌||◌, not, Option, none, some, ◌∷◌, ◌++◌, Text, codes, any, is_empty, trim, unwrap_or,
  Result, ok, err, ensure, ◌>>=◌, ◌>>◌, ◌==◌, if◌then◌else◌,
}
use zann.Errors.{ServiceError}
use zann.Core.Structs.{Identity, Item, ItemHistory, Change, Vault}
use zann.Core.Enums.ChangeOp
use zann.Core.Enums.ChangeType
use zann.Core.Enums.SyncStatus
use zann.Sync.Paths.{basename_from_path}
use zann.Sync.Shared.{JsonCodec}
use zann.Sync.Store.{clashes}
use zann.Items.Scopes.{validate_item_path}
use zann.Items.Store.{
  ItemDb, ItemSite, ItemFaults, actor_snapshot, authorize_vault_access, create_history,
  prune_by_item, create_change, same_row, put_row, with_rows, mark_deleted_by_item,
  purge_deleted_before, clear_deleted_by_item,
}
use zann.Items.Plan.{
  CreateItemCommand, UpdateItemCommand, Fresh, Upkeep, untouched, restored, removed, Planned,
  bind_tags, content_of, require_device, entry_of,
}
use zann.Items.Changes.{plan_update, plan_delete, plan_restore}

abbrev pub record_entry : ItemFaults → Option ItemHistory → ItemDb → ItemDb
record_entry faults none db = db
record_entry faults (some h) db = prune_by_item faults h.item_id (create_history faults h db)

abbrev pub keep_attachments : ItemFaults → ℕ → ℕ → Upkeep → ItemDb → ItemDb
keep_attachments faults item_id now untouched db = db
keep_attachments faults item_id now restored db = clear_deleted_by_item faults item_id db
keep_attachments faults item_id now (removed cutoff) db =
    purge_deleted_before faults cutoff (mark_deleted_by_item faults item_id now db)

abbrev pub change_of : Planned → ℕ → Change
change_of p seq = record {
  seq = seq;
  vault_id = p.vault.id;
  item_id = p.item.id;
  op = p.op;
  version = p.item.version;
  device_id = p.item.device_id;
  created_at = p.item.updated_at;
}

-- What happens before the item is written.
unfoldable pub prepare_write : ItemFaults → Planned → ItemDb → ItemDb
unfolding create_history prune_by_item mark_deleted_by_item purge_deleted_before
    clear_deleted_by_item
prepare_write faults p db =
    keep_attachments faults p.item.id p.item.updated_at p.upkeep (record_entry faults p.history db)

-- `ItemRepo::update` and the entry in the change log.
unfoldable pub write_row :
    ItemFaults → Planned → ItemDb → Result ServiceError (Vault × Item) × ItemDb
unfolding create_change
write_row faults p db =
    let stored = with_rows (put_row p.item db.tables.items) db in
    if faults.item_write_fails
    then (err ServiceError.service_db_error, db)
    else if not (any (same_row p.item) db.tables.items)
    then (err (ServiceError.conflict "row_version_conflict"), db)
    else if clashes db.tables.items p.item
    then (err ServiceError.service_db_error, db)
    else (ok (p.vault, p.item), create_change faults (change_of p) stored)

abbrev pub run_plan :
    ItemFaults → Result ServiceError Planned → ItemDb → Result ServiceError (Vault × Item) × ItemDb
run_plan faults (err e) db = (err e, db)
run_plan faults (ok p) db = write_row faults p (prepare_write faults p db)

abbrev pub forget :
    {A : Type 0} → Result ServiceError A × ItemDb → Result ServiceError (Unit {0}) × ItemDb
forget (err e, db) = (err e, db)
forget (ok a, db) = (ok tt, db)

module _ (site : ItemSite) (faults : ItemFaults) (fresh : Fresh) (identity : Identity)
    (vault_id : Text) (db : ItemDb) where
  unfoldable pub delete_item : ℕ → Result ServiceError (Unit {0}) × ItemDb
  unfolding plan_delete prepare_write write_row
  delete_item item_id =
      forget (run_plan faults (plan_delete site faults fresh identity vault_id db item_id) db)

  unfoldable pub restore_item_version : ℕ → Text → ℕ → Result ServiceError (Vault × Item) × ItemDb
  unfolding plan_restore prepare_write write_row
  restore_item_version item_id version_text version =
      run_plan faults
        (plan_restore site faults fresh identity vault_id db item_id version_text version) db

  module _ {Json : Type 0} (codec : JsonCodec Json) where
    unfoldable pub update_item :
        ℕ → UpdateItemCommand Json → Result ServiceError (Vault × Item) × ItemDb
    unfolding plan_update prepare_write write_row
    update_item item_id cmd =
        run_plan faults (plan_update site faults fresh identity vault_id db codec item_id cmd) db

    unfoldable pub plan_create : CreateItemCommand Json → Result ServiceError Planned
    unfolding authorize_vault_access validate_item_path basename_from_path actor_snapshot trim
    plan_create cmd = do
      device_id ← require_device identity
      vault ←
          authorize_vault_access site identity vault_id (codes "write")
            (codes "vaults/" ++ (vault_id ++ codes "/items"))
      let type_id = trim cmd.type_id
      ensure (not (is_empty type_id)) (ServiceError.bad_request "invalid_item")
      path ← validate_item_path cmd.path
      content ← content_of codec site vault.encryption_type fresh vault cmd
      let item : Item = record {
        id = fresh.item_id;
        vault_id = vault.id;
        path = path;
        name = basename_from_path path;
        type_id = type_id;
        tags = bind_tags cmd.tags;
        favorite = unwrap_or cmd.favorite false;
        payload_enc = content.0;
        checksum = content.1;
        version = unwrap_or cmd.version 1;
        row_version = 1;
        device_id = device_id;
        sync_status = SyncStatus.active;
        deleted_at = none;
        deleted_by_user_id = none;
        deleted_by_device_id = none;
        created_at = fresh.now;
        updated_at = fresh.now;
      }
      ok (record {
        vault = vault;
        item = item;
        history = some (
            entry_of fresh identity device_id (actor_snapshot faults identity device_id db)
              ChangeType.create cmd.fields_changed item);
        upkeep = untouched;
        op = ChangeOp.create;
      })

    -- `ItemRepo::create`, then the history and the change log.
    abbrev insert_planned :
        Result ServiceError Planned → Result ServiceError (Vault × Item) × ItemDb
    insert_planned (err e) = (err e, db)
    insert_planned (ok p) =
        if faults.item_write_fails
          || (any (λ r. r.id == p.item.id) db.tables.items || clashes db.tables.items p.item)
        then (err ServiceError.service_db_error, db)
        else (
          ok (p.vault, p.item),
          create_change faults (change_of p)
              (prepare_write faults p (with_rows (p.item ∷ db.tables.items) db)),
        )

    unfoldable pub create_item :
        CreateItemCommand Json → Result ServiceError (Vault × Item) × ItemDb
    unfolding plan_create prepare_write create_change
    create_item cmd = insert_planned (plan_create cmd)
