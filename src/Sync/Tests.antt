-- ===== src/Sync/Tests.antt =====
-- Pushes on a small server, and the theorems about pushes at its states.
use zann.Base.{
  pos, arith, ℕ, ◌≡◌, refl, false, none, some, List, [], ◌∷◌, Text, codes, map, text_eq,
  starts_with, trim_start_matches, trim_matches, trim, is_whitespace, split, join, Result, ok,
}
use zann.Errors.{ServiceError}
use zann.Core.Structs.{Item}
use zann.Core.Enums.ChangeOp
use zann.Access.Policy.{evaluate_rules, evaluate, from_rules}
use zann.Access.Role.{role_permits}
use zann.Access.Vault.{get_vault, get_member, vault_role_allows, access}
use zann.Sync.Paths.{
  nonblank, rename, basename_from_path, replace_basename, normalize_path_and_name,
}
use zann.Sync.Store.{
  Tables, Conn, execute, select, insert_item, update_item, insert_history, prune_item_history,
  insert_change,
}
use zann.Sync.Action.{
  SyncAppliedChange, applied, SyncPushChange, ◌>>=◌, give, fail, must, attempt, require, db_error,
}
use zann.Sync.Steps.{
  conflict_of, history_row, actor_snapshot, find_path_conflict, record_history, store_item,
}
use zann.Sync.Branches.{
  create_item, payload_changed, update_existing, restore_existing, delete_existing, apply_operation,
}
use zann.Sync.Apply.{is_stale, stale_conflict, log_change, find_existing, finish, apply_change}
use zann.Sync.Push.{
  Server, SyncPushResult, prepare_sync, encode_cursor, last_seq, push_changes, conclude, run_push,
  sync_push,
}
use zann.Sync.Fixtures.{
  alice, server_one, no_faults, new_item, edit_item, remove_item, foreign_item, context_one,
}
use zann.Sync.Authorised.{Entitled, sync_push-Entitled}
use zann.Sync.HistoryBound.{WithinLimit}
use zann.Sync.Kept.{sync_push-WithinLimit}
use zann.Sync.Recorded.{Logged}
use zann.Sync.Reported.{apply_change-Logged}
use zann.Sync.Stale.{healthy, server_seq_of, Refused, apply_change-stale}
use zann.Sync.Delete.{apply_change-deletes}
use zann.Sync.Transaction.{AllOrNothing, sync_push-AllOrNothing}

-- One name that opens the whole of a push.
push_on : Server → List SyncPushChange → Result ServiceError SyncPushResult × Server
unfolding sync_push prepare_sync get_vault access evaluate evaluate_rules from_rules
    vault_role_allows get_member role_permits text_eq run_push push_changes conclude encode_cursor
    last_seq apply_change is_stale stale_conflict log_change find_existing finish apply_operation
    create_item payload_changed update_existing restore_existing delete_existing conflict_of
    history_row actor_snapshot find_path_conflict record_history store_item ◌>>=◌ give fail must
    attempt require db_error execute select insert_item update_item insert_history
    prune_item_history insert_change nonblank rename basename_from_path replace_basename
    normalize_path_and_name starts_with trim_start_matches trim_matches trim is_whitespace split
    join
push_on s changes = sync_push s no_faults alice 1 100 500 changes

abbrev paths_of : Server → List Text
paths_of s = map (λ (i : Item). i.path) s.tables.items

abbrev versions_of : Server → List ℕ
versions_of s = map (λ (i : Item). i.version) s.tables.items

create_then_edit :
    let s = (push_on server_one (new_item ∷ edit_item ∷ [])).1 in
    (paths_of s ≡ codes "web/mail" ∷ []) × (versions_of s ≡ 2 ∷ []) × (s.next_seq ≡ 3)
unfolding push_on
create_then_edit = (refl, refl, refl)

create_twice_conflicts : paths_of (push_on server_one (new_item ∷ new_item ∷ [])).1 ≡ []
unfolding push_on
create_twice_conflicts = refl

sync_push-AllOrNothing_example :
    AllOrNothing server_one none alice 1 100 500
      (new_item ∷ edit_item ∷ [])
      (sync_push server_one no_faults alice 1 100 500 (new_item ∷ edit_item ∷ []))
sync_push-AllOrNothing_example =
    sync_push-AllOrNothing server_one no_faults alice 1 100 500 (new_item ∷ edit_item ∷ [])

abbrev pushed : SyncPushResult
pushed = record {
  applied_ids = (20 ∷ []) ∷ [];
  applied_changes =
      record { item_id = 20 ∷ []; seq = 1; updated_at = 100 ∷ []; deleted_at = none } ∷ [];
  conflicts = [];
  new_cursor = [];
}

push_runs :
    sync_push server_one no_faults alice 1 100 500 (new_item ∷ [])
    ≡ (ok pushed, (sync_push server_one no_faults alice 1 100 500 (new_item ∷ [])).1)
unfolding push_on
push_runs = refl

sync_push-Entitled_example : Entitled server_one alice 1
sync_push-Entitled_example =
    sync_push-Entitled server_one (sync_push server_one no_faults alice 1 100 500 (new_item ∷ [])).1
      no_faults alice 1 100 500 (new_item ∷ []) pushed push_runs

sync_push-WithinLimit_example :
    WithinLimit
      (sync_push server_one no_faults alice 1 100 500
        (new_item ∷ edit_item ∷ [])).1.tables.item_history
sync_push-WithinLimit_example =
    sync_push-WithinLimit server_one no_faults alice 1 100 500 (new_item ∷ edit_item ∷ [])
      (λ j. omega arith)

abbrev with_foreign : Tables
with_foreign = record server_one.tables { items = foreign_item ∷ [] }

not_stale : is_stale context_one (pos 0) (server_seq_of context_one 20 with_foreign) ≡ false
unfolding is_stale
not_stale = refl

-- The item of vault 2 becomes a tombstone, by a push to vault 1.
apply_change-deletes_example :
    (a : SyncAppliedChange) × ((c : Conn) × ((apply_change context_one remove_item
            (healthy with_foreign 1)
          ≡ (ok (applied 20 a), c))
        × Logged context_one remove_item a c))
apply_change-deletes_example =
    apply_change-deletes context_one remove_item with_foreign 1 foreign_item refl not_stale refl

abbrev new_answer : SyncAppliedChange
new_answer = record { item_id = 20 ∷ []; seq = 1; updated_at = 100 ∷ []; deleted_at = none }

abbrev after_new : Conn
after_new = (apply_change context_one new_item (healthy server_one.tables 1)).1

new_runs :
    apply_change context_one new_item (healthy server_one.tables 1)
    ≡ (ok (applied 20 new_answer), after_new)
unfolding push_on
new_runs = refl

apply_change-Logged_example : Logged context_one new_item new_answer after_new
apply_change-Logged_example =
    apply_change-Logged context_one new_item (healthy server_one.tables 1) after_new 20 new_answer
      new_runs

-- The server is at number 5, the change rests on number 3.
abbrev stale_edit : SyncPushChange
stale_edit = record edit_item { base_seq = some (pos 3) }

abbrev logged_tables : Tables
logged_tables = record with_foreign {
  changes =
      record {
        seq = 5;
        vault_id = 1;
        item_id = 20;
        op = ChangeOp.update;
        version = 2;
        device_id = 4;
        created_at = 20;
      }
      ∷ [];
}

apply_change-stale_example :
    Refused context_one stale_edit 3
      (healthy logged_tables 6)
      (apply_change context_one stale_edit (healthy logged_tables 6))
apply_change-stale_example =
    apply_change-stale context_one stale_edit 3 (healthy logged_tables 6) refl (omega arith) refl
