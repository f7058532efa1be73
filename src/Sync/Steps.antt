-- ===== src/Sync/Steps.antt =====
-- crates/zann-server/src/domains/sync/http/v1/handlers/push_apply.rs and helpers.rs: the steps
-- that the branches of `apply_change` share.
use mathlib.Core.Option
use zann.Base.{
  ℕ, ◌+◌, min, ◌&&◌, String, Option, none, some, Text, unwrap_or, find_first, ◌==◌, if◌then◌else◌,
}
use zann.External.{External}
use zann.Core.Structs.{Identity, Item, ItemHistory}
use zann.Core.Enums.ChangeType.{ChangeType}
use zann.Access.Vault.{is_none}
use zann.Sync.Store.{Tables, select, occupies, update_item, insert_history, prune_item_history}
use zann.Sync.Action.{
  SyncPushConflict, Action, ◌>>=◌, ◌>>◌, give, must, attempt, item_history_limit,
}

-- `i64::saturating_add(1)`.
abbrev pub i64_max : ℕ
i64_max = 9223372036854775807

abbrev pub next_version : ℕ → ℕ
next_version v = min (v + 1) i64_max

pub record ActorSnapshot : Type 0 where
  pub email : Text
  pub name : Option Text
  pub device_name : Option Text

-- `Option<Option<T>>::flatten`, of a query that may fail.
abbrev pub joined : {A : Type 0} → Option (Option A) → Option A
joined none = none
joined (some r) = r

abbrev pub user_name : ℕ → Tables → Option Text
user_name id t = elim (find_first (λ u. u.id == id && is_none u.deleted_at) t.users) [
  | none ↦ none
  | some u ↦ u.full_name
]

abbrev pub device_name_of : ℕ → Tables → Option Text
device_name_of id t = Option.map (λ d. d.name) (find_first (λ d. d.id == id) t.devices)

unfoldable pub actor_snapshot : Identity → ℕ → Action ActorSnapshot
actor_snapshot identity device_id = do
  name ← attempt (select (user_name identity.user_id))
  device ← attempt (select (device_name_of device_id))
  give (record { email = identity.email; name = joined name; device_name = joined device })

-- What one call of `apply_change` is given besides the connection: `now` is the clock, and
-- `history_id` what `Uuid::now_v7()` returns.
pub record Context : Type 0 where
  pub ext : External
  pub identity : Identity
  pub device_id : ℕ
  pub vault_id : ℕ
  pub now : ℕ
  pub history_id : ℕ

-- Either the version of the item after the change, or an early return with a conflict.
pub data Outcome : Type 0 where
  proceed : ℕ → Outcome
  stop : SyncPushConflict → Outcome

module _ (ctx : Context) where
  open ctx use {ext, identity, device_id, vault_id, now, history_id}

  unfoldable pub conflict_of : ℕ → String → Option ℕ → ℕ → SyncPushConflict
  conflict_of item_id reason server_seq at = record {
    item_id = ext.uuid_text item_id;
    reason = reason;
    server_seq = unwrap_or server_seq 0;
    server_updated_at = ext.rfc3339 at;
  }

  -- `find_path_conflict`: when the row that holds the path was updated.
  unfoldable pub find_path_conflict : Text → Option ℕ → Action (Option ℕ)
  find_path_conflict path exclude = must (
      select λ t.
        Option.map (λ row. row.updated_at) (find_first (occupies vault_id path exclude) t.items))

  unfoldable pub history_row : Item → ChangeType → ActorSnapshot → ItemHistory
  history_row item change_type actor = record {
    id = history_id;
    item_id = item.id;
    payload_enc = item.payload_enc;
    checksum = item.checksum;
    version = item.version;
    change_type = change_type;
    fields_changed = none;
    changed_by_user_id = identity.user_id;
    changed_by_email = actor.email;
    changed_by_name = actor.name;
    changed_by_device_id = some device_id;
    changed_by_device_name = actor.device_name;
    created_at = now;
  }

  -- The entry for the item as it is, and the pruning whose failure is only logged.
  unfoldable pub record_history : Item → ChangeType → ActorSnapshot → Action (Unit {0})
  record_history item change_type actor = do
    must (insert_history (history_row item change_type actor))
    _ ← attempt (prune_item_history item.id item_history_limit)
    give tt

  -- Writes the item that a branch has changed.
  unfoldable pub store_item : Option ℕ → Item → Action Outcome
  store_item server_seq item = do
    rows ← must (update_item item)
    give (
        if rows == 0
        then stop (conflict_of item.id "concurrent_modification" server_seq item.updated_at)
        else proceed item.version)
