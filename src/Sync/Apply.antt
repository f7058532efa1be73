-- ===== src/Sync/Apply.antt =====
-- crates/zann-server/src/domains/sync/http/v1/handlers/push_apply.rs: `apply_change`, one
-- change of a push inside the transaction of the push.
use zann.Base.{
  ℕ, Bool, true, false, ◌&&◌, ℤ, pos, ltb_ℤ, Option, none, some, unwrap_or, find_first, ◌==◌,
  if◌then◌else◌,
}
use zann.Core.Structs.{Item}
use zann.Core.Enums.ChangeType.{ChangeType}
use zann.Core.Enums.ChangeOp.{ChangeOp}
use zann.Sync.Store.{select, max_seq, insert_change}
use zann.Sync.Action.{
  SyncPushChange, ApplyChangeResult, applied, conflict, Action, ◌>>=◌, give, must, attempt,
}
use zann.Sync.Steps.{Context, Outcome, proceed, stop, joined, conflict_of}
use zann.Sync.Branches.{apply_operation}

module _ (ctx : Context) where
  open ctx use {ext, identity, device_id, vault_id, now, history_id}

  abbrev pub op_of : ChangeType → ChangeOp
  op_of ChangeType.delete = ChangeOp.delete
  op_of ChangeType.update = ChangeOp.update
  op_of ChangeType.restore = ChangeOp.update
  op_of ChangeType.create = ChangeOp.create

  abbrev is_delete : ChangeType → Bool
  is_delete ChangeType.delete = true
  is_delete _ = false

  -- `base_seq > 0 && server_seq > base_seq`, where the item has changes.
  unfoldable pub is_stale : ℤ → Option ℕ → Bool
  is_stale base_seq none = false
  is_stale base_seq (some seq) = ltb_ℤ (pos 0) base_seq && ltb_ℤ base_seq (pos seq)

  -- The conflict of a stale change; a failure to load the time is only logged.
  unfoldable pub stale_conflict : ℕ → Option ℕ → Action ApplyChangeResult
  stale_conflict item_id server_seq = do
    row ← attempt (select λ t. find_first (λ r. r.id == item_id) t.items)
    give (
        conflict (
          conflict_of ctx item_id "concurrent_modification" server_seq
            (elim (joined row) [ none ↦ now | some item ↦ item.updated_at ])))

  -- The entry in the change log, and the answer.
  unfoldable pub log_change : SyncPushChange → ℕ → Action ApplyChangeResult
  log_change change version = do
    seq ← must (
        insert_change λ seq. record {
          seq = seq;
          vault_id = vault_id;
          item_id = change.item_id;
          op = op_of change.operation;
          version = version;
          device_id = device_id;
          created_at = now;
        })
    give (
        applied change.item_id (record {
          item_id = ext.uuid_text change.item_id;
          seq = seq;
          updated_at = ext.rfc3339 now;
          deleted_at = if is_delete change.operation then some (ext.rfc3339 now) else none;
        }))

  unfoldable pub find_existing : ℕ → Action (Option Item)
  find_existing item_id = must (select λ t. find_first (λ r. r.id == item_id) t.items)

  unfoldable pub finish : SyncPushChange → Outcome → Action ApplyChangeResult
  finish change (stop c) = give (conflict c)
  finish change (proceed version) = log_change change version

  unfoldable pub apply_change : SyncPushChange → Action ApplyChangeResult
  apply_change change = do
    server_seq ←
        must (
          select
            λ t. max_seq (λ c. c.vault_id == vault_id && c.item_id == change.item_id) t.changes)
    if is_stale (unwrap_or change.base_seq (pos 0)) server_seq
        then stale_conflict change.item_id server_seq
        else do
          existing ← find_existing change.item_id
          outcome ← apply_operation ctx change.operation existing server_seq change
          finish change outcome
