-- ===== src/Items/Read.antt =====
-- crates/zann-server/src/domains/items/service.rs: `list_items`, `get_item`, `list_item_versions` and
-- `get_item_version`, which change nothing.
use zann.Base.{
  ℕ, Bool, true, Option, none, some, List, [], ◌++◌, Text, codes, keep, take, unwrap_or, ℤ, pos,
  Result, ok, ok_or, ensure, ◌>>=◌, ◌>>◌,
}
use zann.Errors.{ServiceError}
use zann.Core.Structs.{Identity, Item, ItemHistory, Vault}
use zann.Auth.Store.{unless_fails}
use zann.Vaults.Service.{access_db}
use zann.Sync.Action.{item_history_limit}
use zann.Sync.Store.{is_active, sort_desc, of_item}
use zann.Sync.Pull.{clamp}
use zann.Sync.Shared.Pull.{list_by_vault}
use zann.Items.Scopes.{
  normalize_prefix, prefix_match, service_account_allows_path, service_account_allows_prefix,
}
use zann.Items.Store.{
  ItemDb, ItemSite, ItemFaults, history_at, authorize_vault_access, item_in_vault,
}

module _ (site : ItemSite) (faults : ItemFaults) (identity : Identity) (vault_id : Text)
    (db : ItemDb) where
  -- The scopes of a service account must permit reading the path.
  abbrev pub may_read : Vault → Text → Bool
  may_read vault path = elim identity.service_account_id [
    | none ↦ true
    | some id ↦
        service_account_allows_path site.vaults.auth.ext (access_db site.vault_faults site.auth_db)
          id vault (codes "read") path
  ]

  abbrev pub may_list : Vault → Option Text → Bool
  may_list vault prefix = elim identity.service_account_id [
    | none ↦ true
    | some id ↦
        service_account_allows_prefix site.vaults.auth.ext
          (access_db site.vault_faults site.auth_db) id vault (codes "list") prefix
  ]

  abbrev pub item_resource : ℕ → Text → Text
  item_resource item_id rest =
      codes "vaults/"
      ++ (vault_id ++ (codes "/items/" ++ (site.vaults.auth.ext.uuid_text item_id ++ rest)))

  -- An item that the identity may read.
  unfoldable pub readable_item : ℕ → Text → Result ServiceError (Vault × Item)
  unfolding authorize_vault_access item_in_vault service_account_allows_path
  readable_item item_id rest = do
    vault ←
        authorize_vault_access site identity vault_id (codes "read") (item_resource item_id rest)
    item ← item_in_vault faults db item_id vault
    ensure (may_read vault item.path) ServiceError.forbidden_no_body
    ok (vault, item)

  unfoldable pub get_item : ℕ → Result ServiceError (Vault × Item)
  unfolding readable_item
  get_item item_id = readable_item item_id []

  unfoldable pub list_items : Option Text → Result ServiceError (List Item)
  unfolding authorize_vault_access normalize_prefix prefix_match service_account_allows_prefix
  list_items given = do
    vault ←
        authorize_vault_access site identity vault_id (codes "list")
          (codes "vaults/" ++ (vault_id ++ codes "/items"))
    let prefix = normalize_prefix given
    ensure (may_list vault prefix) ServiceError.forbidden_no_body
    items ←
        unless_fails faults.item_read_fails ServiceError.service_db_error
          (keep (λ i. is_active i.sync_status) (list_by_vault db.tables vault.id))
    ok (keep (λ i. prefix_match prefix i.path) items)

  unfoldable pub list_item_versions : ℕ → Option ℤ → Result ServiceError (List ItemHistory)
  unfolding readable_item
  list_item_versions item_id asked = do
    found ← readable_item item_id (codes "/versions")
    let limit = clamp item_history_limit (unwrap_or asked (pos item_history_limit))
    unless_fails faults.history_read_fails ServiceError.service_db_error
        (take limit (sort_desc (keep (of_item found.1.id) db.tables.item_history)))

  unfoldable pub get_item_version : ℕ → Text → ℕ → Result ServiceError (Vault × ItemHistory)
  unfolding readable_item history_at
  get_item_version item_id version_text version = do
    found ← readable_item item_id (codes "/versions/" ++ version_text)
    row ←
        unless_fails faults.history_read_fails ServiceError.service_db_error
          (history_at db found.1.id version)
    history ← ok_or row ServiceError.not_found
    ok (found.0, history)
