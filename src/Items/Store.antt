-- ===== src/Items/Store.antt =====
-- crates/zann-db/src/repo/items.rs, changes.rs: the statements of the items service, each of which
-- stands on its own: the service opens no transaction.
use zann.Base.{
  ℕ, suc, ◌+◌, Bool, false, ◌&&◌, ◌||◌, not, Option, none, some, List, ◌∷◌, Text, any, map, keep,
  find_first, ltb, Result, ok, ok_or, ensure, ◌>>=◌, ◌>>◌, ◌==◌, if◌then◌else◌,
}
use zann.Errors.{ServiceError}
use zann.Core.Structs.{Identity, Item, ItemHistory, Change, Vault}
use zann.Access.Role.{items}
use zann.Access.Vault.{is_none, access}
use zann.Auth.Store.{AuthDb, unless_fails}
use zann.Vaults.Service.{VaultSite, VaultFaults, access_db, find_vault, or_db_error}
use zann.Sync.Action.{item_history_limit}
use zann.Sync.Steps.{ActorSnapshot, user_name, device_name_of}
use zann.Sync.Store.{Tables, same_version, prune_rows}

pub record Attachment : Type 0 where
  pub id : ℕ
  pub item_id : ℕ
  pub filename : Text
  pub size : ℕ
  pub mime_type : Text
  pub enc_mode : Text
  pub content_enc : List ℕ
  pub checksum : Text
  pub storage_url : Option Text
  pub created_at : ℕ
  pub deleted_at : Option ℕ

-- `next_seq` is the sequence behind `changes.seq`.
pub record ItemDb : Type 0 where
  pub tables : Tables
  pub attachments : List Attachment
  pub next_seq : ℕ

-- What the service is configured with, and the tables that access control reads.
pub record ItemSite : Type 0 where
  pub vaults : VaultSite
  pub auth_db : AuthDb
  pub vault_faults : VaultFaults
  pub payload_checksum : List ℕ → Text
  pub attachments_gc_grace_days : ℕ

-- Which statements fail during one request.
pub record ItemFaults : Type 0 where
  pub item_read_fails : Bool
  pub history_read_fails : Bool
  pub user_read_fails : Bool
  pub device_read_fails : Bool
  pub item_write_fails : Bool
  pub history_insert_fails : Bool
  pub prune_fails : Bool
  pub change_insert_fails : Bool
  pub mark_fails : Bool
  pub purge_fails : Bool
  pub clear_fails : Bool

-- `ItemRepo::get_by_id`, deleted items included.
unfoldable pub item_by_id : ItemDb → ℕ → Option Item
item_by_id db id = find_first (λ i. i.id == id) db.tables.items

-- `ItemHistoryRepo::get_by_item_version`.
unfoldable pub history_at : ItemDb → ℕ → ℕ → Option ItemHistory
history_at db item_id version =
    find_first (λ h. h.item_id == item_id && h.version == version) db.tables.item_history

abbrev pub with_rows : List Item → ItemDb → ItemDb
with_rows rows db = record db { tables = record db.tables { items = rows } }

abbrev with_entries : List ItemHistory → ItemDb → ItemDb
with_entries rows db = record db { tables = record db.tables { item_history = rows } }

-- `ItemHistoryRepo::create`, under the primary key and the unique index of item and version; a
-- failure is only logged.
unfoldable pub create_history : ItemFaults → ItemHistory → ItemDb → ItemDb
create_history faults h db =
    if faults.history_insert_fails
      || any (λ r. same_version h r || r.id == h.id) db.tables.item_history
    then db
    else with_entries (h ∷ db.tables.item_history) db

-- `ItemHistoryRepo::prune_by_item`; a failure is only logged.
unfoldable pub prune_by_item : ItemFaults → ℕ → ItemDb → ItemDb
prune_by_item faults item_id db =
    if faults.prune_fails
    then db
    else with_entries (prune_rows item_id item_history_limit db.tables.item_history) db

-- `ChangeRepo::create`; a failure is only logged.
unfoldable pub create_change : ItemFaults → (ℕ → Change) → ItemDb → ItemDb
create_change faults change db = if faults.change_insert_fails then db else record db {
  tables = record db.tables { changes = change db.next_seq ∷ db.tables.changes };
  next_seq = suc db.next_seq;
}

-- The row of an item as it was read: `WHERE id = $1 AND row_version = $16`.
abbrev pub same_row : Item → Item → Bool
same_row item r = r.id == item.id && r.row_version == item.row_version

-- What `ItemRepo::update` leaves in the row.
abbrev pub next_row : Item → Item
next_row item = record item { row_version = item.row_version + 1 }

abbrev pub put_row : Item → List Item → List Item
put_row item rows = map (λ r. if same_row item r then next_row item else r) rows

-- `AttachmentRepo::mark_deleted_by_item`, `purge_deleted_before` and `clear_deleted_by_item`.
abbrev marked : ℕ → ℕ → Attachment → Attachment
marked item_id now a =
    if a.item_id == item_id && is_none a.deleted_at then record a { deleted_at = some now } else a

abbrev cleared : ℕ → Attachment → Attachment
cleared item_id a = if a.item_id == item_id then record a { deleted_at = none } else a

abbrev purgeable : ℕ → Attachment → Bool
purgeable cutoff a = elim a.deleted_at [ none ↦ false | some at ↦ ltb at cutoff ]

abbrev with_attachments : List Attachment → ItemDb → ItemDb
with_attachments rows db = record db { attachments = rows }

unfoldable pub mark_deleted_by_item : ItemFaults → ℕ → ℕ → ItemDb → ItemDb
mark_deleted_by_item faults item_id now db =
    if faults.mark_fails then db else with_attachments (map (marked item_id now) db.attachments) db

unfoldable pub purge_deleted_before : ItemFaults → ℕ → ItemDb → ItemDb
purge_deleted_before faults cutoff db =
    if faults.purge_fails
    then db
    else with_attachments (keep (λ a. not (purgeable cutoff a)) db.attachments) db

unfoldable pub clear_deleted_by_item : ItemFaults → ℕ → ItemDb → ItemDb
clear_deleted_by_item faults item_id db =
    if faults.clear_fails then db else with_attachments (map (cleared item_id) db.attachments) db

-- Either query may fail, which leaves its name out.
unfoldable pub actor_snapshot : ItemFaults → Identity → ℕ → ItemDb → ActorSnapshot
actor_snapshot faults identity device_id db = record {
  email = identity.email;
  name = if faults.user_read_fails then none else user_name identity.user_id db.tables;
  device_name = if faults.device_read_fails then none else device_name_of device_id db.tables;
}

module _ (site : ItemSite) where
  unfoldable pub authorize_vault_access : Identity → Text → Text → Text → Result ServiceError Vault
  unfolding find_vault access
  authorize_vault_access identity vault_id action resource = do
    row ← find_vault site.vaults site.vault_faults site.auth_db vault_id
    vault ← ok_or row ServiceError.not_found
    permitted ← or_db_error (
        access site.vaults.auth.ext (access_db site.vault_faults site.auth_db) site.vaults.policies
          identity vault.id action resource items)
    ensure permitted ServiceError.forbidden_no_body
    ok vault

-- The item of the vault.
unfoldable pub item_in_vault : ItemFaults → ItemDb → ℕ → Vault → Result ServiceError Item
unfolding item_by_id
item_in_vault faults db item_id vault = do
  row ← unless_fails faults.item_read_fails ServiceError.service_db_error (item_by_id db item_id)
  item ← ok_or row ServiceError.not_found
  ensure (item.vault_id == vault.id) ServiceError.not_found
  ok item
