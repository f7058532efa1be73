-- ===== src/Sync/Delete.antt =====
-- crates/zann-server/src/domains/sync/http/v1/handlers/push_apply.rs: a delete goes through.
use mathlib.Core.Path.{subst}
use zann.Base.{
  sym, ==_iff, ℕ, ◌≡◌, refl, Option, some, none, find_first, unwrap_or, pos, false, ok, ◌==◌, ◌∙◌,
  Bool-cases, inl, inr,
}
use zann.Core.Structs.{Item}
use zann.Core.Enums.ChangeType
use zann.Sync.Store.{Tables, Conn, is_active}
use zann.Sync.Action.{SyncPushChange, SyncAppliedChange, applied, ApplyChangeResult}
use zann.Sync.Steps.{
  Context, next_version, Outcome, proceed, ActorSnapshot, actor_snapshot, record_history,
  store_item,
}
use zann.Sync.Branches.{delete_existing, apply_operation}
use zann.Sync.Apply.{is_stale, apply_change, find_existing, finish, log_change}
use zann.Sync.Recorded.{with_id, found_id, Logged}
use zann.Sync.Reported.{apply_change-Logged}
use zann.Sync.Stale.{healthy, server_seq_of}
use zann.Sync.Total.{
  Succeeds, bind-Succeeds, give-Succeeds, must-Succeeds, attempt-Succeeds, Has, select-Answers,
  select_any-Answers, insert_history-Answers, prune-Answers, update_item-Answers,
  insert_change-Answers,
}

module _ (ctx : Context) (id : ℕ) (item : Item) where
  actor_snapshot-Succeeds :
      (user device : _) (c : Conn)
      → Has id item c
      → Succeeds (actor_snapshot user device) c (λ _. Has id item)
  unfolding actor_snapshot
  actor_snapshot-Succeeds user device c h =
      bind-Succeeds (attempt-Succeeds (select_any-Answers id item c h _)) λ _ c' h'.
        bind-Succeeds (attempt-Succeeds (select_any-Answers id item c' h' _))
          λ _ c'' h''. give-Succeeds _ c'' _ h''

  record_history-Succeeds :
      (old : Item) (t : ChangeType.ChangeType) (actor : ActorSnapshot) (c : Conn)
      → Has id item c
      → Succeeds (record_history ctx old t actor) c (λ _. Has id item)
  unfolding record_history
  record_history-Succeeds old t actor c h =
      bind-Succeeds (must-Succeeds (insert_history-Answers id item c h _)) λ _ c' h'.
        bind-Succeeds (attempt-Succeeds (prune-Answers id item c' h' _ _))
          λ _ c'' h''. give-Succeeds _ c'' _ h''

module _ (ctx : Context) (seq : Option ℕ) (item : Item) where
  -- The write of a tombstone over an item that is there.
  store_item-Succeeds :
      (row : Item) (c : Conn)
      → Has row.id item c
      → is_active row.sync_status ≡ false
      → Succeeds (store_item ctx seq row) c (λ o c'. (o ≡ proceed row.version) × (c'.budget ≡ none))
  unfolding store_item
  store_item-Succeeds row c h dead =
      bind-Succeeds (must-Succeeds (update_item-Answers row.id item c h row refl dead)) λ n c' e.
        give-Succeeds _ c' _ (
          elim (Bool-cases (n == 0)) [
            | inl b ↦ absurd (e.0 ((==_iff n 0).0 b))
            | inr b ↦ rw b refl
          ],
          e.1,
        )

  delete_existing-Succeeds :
      (c : Conn)
      → Has item.id item c
      → Succeeds
          (delete_existing ctx seq item)
          c
          (λ o c'. (o ≡ proceed (next_version item.version)) × (c'.budget ≡ none))
  unfolding delete_existing
  delete_existing-Succeeds c h =
      bind-Succeeds (actor_snapshot-Succeeds ctx item.id item _ _ c h) λ actor c' h'.
        bind-Succeeds (record_history-Succeeds ctx item.id item item _ actor c' h')
          λ _ c'' h''. store_item-Succeeds _ c'' h'' refl

abbrev AppliedTo : SyncPushChange → ApplyChangeResult → Type 0
AppliedTo change r = (a : SyncAppliedChange) × (r ≡ applied change.item_id a)

finish-Succeeds :
    (ctx : Context) (change : SyncPushChange) (v : ℕ) (o : Outcome) (c : Conn)
    → o ≡ proceed v
    → c.budget ≡ none
    → Succeeds (finish ctx change o) c (λ r c'. AppliedTo change r)
unfolding finish log_change
finish-Succeeds ctx change v o c e h = rw e (
    bind-Succeeds (must-Succeeds (insert_change-Answers _ c h))
      λ seq c' _. give-Succeeds _ c' _ (_, refl))

operation-Succeeds :
    (ctx : Context) (change : SyncPushChange) (seq : Option ℕ) (item : Item)
    (t : ChangeType.ChangeType) (existing : Option Item) (c : Conn)
    → t ≡ ChangeType.delete
    → existing ≡ some item
    → Has item.id item c
    → Succeeds
        (apply_operation ctx t existing seq change)
        c
        (λ o c'. (o ≡ proceed (next_version item.version)) × (c'.budget ≡ none))
unfolding apply_operation
operation-Succeeds ctx change seq item t existing c e e' h =
    rw (e, e') (delete_existing-Succeeds ctx seq item c h)

apply_change-Succeeds :
    (ctx : Context) (change : SyncPushChange) (t : Tables) (n : ℕ) (item : Item)
    → change.operation ≡ ChangeType.delete
    → is_stale ctx (unwrap_or change.base_seq (pos 0)) (server_seq_of ctx change.item_id t) ≡ false
    → find_first (with_id change.item_id) t.items ≡ some item
    → Succeeds (apply_change ctx change) (healthy t n) (λ r c'. AppliedTo change r)
unfolding apply_change find_existing
apply_change-Succeeds ctx change t n item deletes fresh found =
    bind-Succeeds (must-Succeeds (select-Answers change.item_id item (healthy t n) (refl, found) _))
      λ seq c e.
        rw (e.0, fresh)
          (bind-Succeeds (must-Succeeds (select-Answers change.item_id item c e.1 _))
            λ existing c' e'.
              bind-Succeeds
                (operation-Succeeds ctx change _ item change.operation existing c' deletes
                  (e'.0 ∙ e.1.1)
                  (subst (λ i. Has i item c') (sym (found_id change.item_id t.items item found))
                    e'.1))
                λ o c'' d. finish-Succeeds ctx change _ o c'' d.0 d.1)

-- On a connection whose statements all succeed, a delete that is not stale of an item that the table
-- holds under the id, of whatever vault the item is, is applied: the item is then a tombstone of this user, and the newest entry of the change log,
-- of the vault that was pushed to, has the version of the tombstone.
pub apply_change-deletes :
    (ctx : Context) (change : SyncPushChange) (t : Tables) (n : ℕ) (item : Item)
    → change.operation ≡ ChangeType.delete
    → is_stale ctx (unwrap_or change.base_seq (pos 0)) (server_seq_of ctx change.item_id t) ≡ false
    → find_first (with_id change.item_id) t.items ≡ some item
    → (a : SyncAppliedChange) × ((c : Conn) × ((apply_change ctx change (healthy t n)
            ≡ (ok (applied change.item_id a), c))
          × Logged ctx change a c))
apply_change-deletes ctx change t n item deletes fresh found =
    let s = apply_change-Succeeds ctx change t n item deletes fresh found in
    let runs = rw s.holds.1 at s.runs in
    (s.holds.0, (s.after, (runs, apply_change-Logged ctx change _ _ _ _ runs)))
