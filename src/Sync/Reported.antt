-- ===== src/Sync/Reported.antt =====
-- crates/zann-server/src/domains/sync/http/v1/handlers/push_apply.rs: the branches of `apply_change`
-- store the item that the change log and the answer then report.
use zann.Base.{ok, sym, ◌∙◌, List, ◌∷◌, ℕ, ◌≡◌, refl, Option, none, some, find_first, arith}
use zann.Core.Structs.{Item, Change}
use zann.Core.Enums.ChangeType.{ChangeType}
use zann.Sync.Store.{Tables, Conn, execute, select, insert_change}
use zann.Sync.Action.{SyncPushChange, SyncAppliedChange, applied, Action, give, ◌>>=◌}
use zann.Sync.Steps.{Context, Outcome, proceed, stop}
use zann.Sync.Branches.{
  create_item, update_existing, restore_existing, delete_existing, apply_operation,
}
use zann.Sync.Apply.{apply_change, find_existing, finish, log_change, stale_conflict}
use zann.Sync.Recorded.{
  Logged, with_id, Stored, StoredAfter, Recorded, Triple-Anyhow, found_id, insert_item_found,
  store_item-Stored,
}
use zann.Sync.Triple.{OnSome, Triple, bind-Triple, must-Triple, give-Triple, if-Triple}

-- Whatever a body does, only what comes after it matters.
after :
    {A B : Type 0} {P : Conn → Type 0} {R : B → Conn → Type 0} (m : Action A) {k : A → Action B}
    → ((a : A) → Triple (λ _. Unit) (k a) R)
    → Triple P (m >>= k) R
after {P} m u = bind-Triple (Triple-Anyhow P m) u

select_gives :
    {A : Type 0} (f : Tables → A) (c : Conn)
    → OnSome (λ a c'. (a ≡ f c.tables) × (c'.tables ≡ c.tables)) (select f c)
unfolding select execute
select_gives f c = ground arith

OnSome-map :
    {A : Type 0} (Q R : A → Conn → Type 0) (p : Option A × Conn)
    → ((a : A) (c : Conn) → Q a c → R a c)
    → OnSome Q p
    → OnSome R p
OnSome-map Q R (none, c) f h = tt
OnSome-map Q R (some a, c) f h = f a c h

select_id :
    (id : ℕ) (c : Conn)
    → OnSome
        (λ existing _. (item : Item) → existing ≡ some item → item.id ≡ id)
        (select (λ t. find_first (with_id id) t.items) c)
select_id id c =
    OnSome-map _ _ (select (λ t. find_first (with_id id) t.items) c)
      (λ a c' e item same. found_id id c.tables.items item (sym e.0 ∙ same))
      (select_gives (λ t. find_first (with_id id) t.items) c)

insert_change_rows :
    (row : ℕ → Change) (c : Conn)
    → OnSome
        (λ seq c'.
          (c'.tables.items ≡ c.tables.items) × (c'.tables.changes ≡ row seq ∷ c.tables.changes))
        (insert_change row c)
unfolding insert_change execute
insert_change_rows row c = ground arith

module _ (ctx : Context) (change : SyncPushChange) where
  open ctx use {ext, identity, device_id, vault_id, now, history_id}

  abbrev Branch : ChangeType → Action Outcome → Type 0
  Branch t m = change.operation ≡ t → Triple (λ _. Unit) m (StoredAfter ctx change)

  gives_stop :
      (m : Action Outcome) (x : _) → Triple (λ _. Unit) (give (stop x)) (StoredAfter ctx change)
  gives_stop m x = give-Triple _ (λ c h. tt)

  create_item-Stored : (seq : Option ℕ) → Branch ChangeType.create (create_item ctx seq change)
  unfolding create_item
  create_item-Stored seq t = after _ λ _. after _ λ _. after _ λ _. after _ λ _. after _ elim [
    | some at ↦ give-Triple _ (λ c h. tt)
    | none ↦ bind-Triple (must-Triple _ (λ c _. insert_item_found _ c)) λ _.
        give-Triple _ (λ c found. record {
          item = _;
          found = found;
          at_version = refl;
          dated = refl;
          marked = rw t (refl, refl);
        })
  ]

  module _ (seq : Option ℕ) (item : Item) (same : item.id ≡ change.item_id) where
    update_existing-Stored : Branch ChangeType.update (update_existing ctx seq change item)
    unfolding update_existing
    update_existing-Stored t = after _ elim [
      | some at ↦ give-Triple _ (λ c h. tt)
      | none ↦ after _ λ _. after _ λ _. store_item-Stored ctx change seq _ (same, refl, rw t tt)
    ]

    restore_existing-Stored : Branch ChangeType.restore (restore_existing ctx seq change item)
    unfolding restore_existing
    restore_existing-Stored t =
        after _ λ _. after _ λ _. store_item-Stored ctx change seq _ (same, refl, rw t (refl, refl))

    delete_existing-Stored : Branch ChangeType.delete (delete_existing ctx seq item)
    unfolding delete_existing
    delete_existing-Stored t =
        after _
          λ _. after _ λ _. store_item-Stored ctx change seq _ (same, refl, rw t (refl, refl, refl))

  apply_operation-Stored :
      (t : ChangeType) (existing : Option Item) (seq : Option ℕ)
      → ((item : Item) → existing ≡ some item → item.id ≡ change.item_id)
      → Branch t (apply_operation ctx t existing seq change)
  unfolding apply_operation
  apply_operation-Stored ChangeType.create none seq same t = create_item-Stored seq t
  apply_operation-Stored ChangeType.create (some item) seq same t = give-Triple _ (λ c h. tt)
  apply_operation-Stored ChangeType.update (some item) seq same t =
      update_existing-Stored seq item (same item refl) t
  apply_operation-Stored ChangeType.restore (some item) seq same t =
      restore_existing-Stored seq item (same item refl) t
  apply_operation-Stored ChangeType.delete (some item) seq same t =
      delete_existing-Stored seq item (same item refl) t
  apply_operation-Stored ChangeType.update none seq same t = give-Triple _ (λ c h. tt)
  apply_operation-Stored ChangeType.restore none seq same t = give-Triple _ (λ c h. tt)
  apply_operation-Stored ChangeType.delete none seq same t = give-Triple _ (λ c h. tt)

  insert_change_logs :
      (version : ℕ) (row : ℕ → Change) (c : Conn)
      → Stored ctx change version c
      → OnSome
          (λ seq c'.
            Stored ctx change version c'
            × ((earlier : List Change) × (c'.tables.changes ≡ row seq ∷ earlier)))
          (insert_change row c)
  insert_change_logs version row c h =
      OnSome-map _ _ (insert_change row c)
        (λ seq c' e. (
          record {
            item = h.item;
            found = rw e.0 h.found;
            at_version = h.at_version;
            dated = h.dated;
            marked = h.marked;
          },
          (c.tables.changes, e.1),
        ))
        (insert_change_rows row c)

  finish-Recorded :
      (o : Outcome) → Triple (StoredAfter ctx change o) (finish ctx change o) (Recorded ctx change)
  unfolding finish log_change
  finish-Recorded (stop x) = give-Triple _ (λ c h. tt)
  finish-Recorded (proceed version) =
      bind-Triple (must-Triple _ (insert_change_logs version _)) λ seq. give-Triple _ λ c h.
        record {
          entry = _;
          earlier = h.1.0;
          newest = h.1.1;
          stored = h.0;
          of_vault = refl;
          of_item = refl;
          operation = refl;
          answered = refl;
        }

  stale_conflict-Recorded :
      (seq : Option ℕ)
      → Triple (λ _. Unit) (stale_conflict ctx change.item_id seq) (Recorded ctx change)
  unfolding stale_conflict
  stale_conflict-Recorded seq = after _ λ _. give-Triple _ (λ c h. tt)

  pub apply_change-Recorded : Triple (λ _. Unit) (apply_change ctx change) (Recorded ctx change)
  unfolding apply_change find_existing
  apply_change-Recorded = after _ λ seq. if-Triple _ (stale_conflict-Recorded seq) (
      bind-Triple
        (must-Triple
          {Q = λ existing _. (item : Item) → existing ≡ some item → item.id ≡ change.item_id} _
          (λ c _. select_id change.item_id c))
        λ existing. record {
          holds = λ c same.
              (bind-Triple (apply_operation-Stored change.operation existing seq same refl)
                  finish-Recorded).holds
                c tt;
        })

-- Where a change is reported as applied, the item stands in the table under the id of the change,
-- dated now and as the operation leaves it (a tombstone of this user after a delete, active after a
-- create or a restore), and the newest entry of the change log is of this vault, item and operation,
-- with the version of the stored item and the number that the answer gives.
pub apply_change-Logged :
    (ctx : Context) (change : SyncPushChange) (c c' : Conn) (item_id : ℕ) (a : SyncAppliedChange)
    → apply_change ctx change c ≡ (ok (applied item_id a), c')
    → Logged ctx change a c'
apply_change-Logged ctx change c c' item_id a e =
    rw e at ((apply_change-Recorded ctx change).holds c tt)
