-- ===== src/Sync/Frame.antt =====
-- What one change keeps of the connection, from what its statements keep: the branches of
-- `apply_change` in crates/zann-server/src/domains/sync/http/v1/handlers/push_apply.rs, once for
-- every property of the connection.
use zann.Base.{ℕ, Option, none, some, Text}
use zann.Core.Structs.{Item}
use zann.Core.Enums.ChangeType.{ChangeType}
use zann.Sync.Store.{Tables, Conn, Statement, select, insert_item}
use zann.Sync.Action.{SyncPushChange, ApplyChangeResult, must, attempt}
use zann.Sync.Steps.{
  Context, ActorSnapshot, Outcome, actor_snapshot, find_path_conflict, record_history, store_item,
}
use zann.Sync.Branches.{
  create_item, update_existing, restore_existing, delete_existing, apply_operation,
}
use zann.Sync.Apply.{apply_change, find_existing, finish, stale_conflict}
use zann.Sync.Triple.{
  OnSome, Triple, Keeps, bind-Triple, bind-Keeps, must-Triple, attempt-Triple, give-Triple,
  give-Keeps, if-Triple, require-Keeps,
}

-- Whether it succeeds or not, the statement keeps `P`.
abbrev pub Quiet : {A : Type 0} → (Conn → Type 0) → Statement A → Type 0
Quiet P s = (c : Conn) → P c → P (s c).1

-- `P` holds between the steps of a change, and `Q` between the entry in the history and the
-- statement that writes the item.
pub record Frame (ctx : Context) (P Q : Conn → Type 0) : Type 1 where
  pub selects : {A : Type 0} (f : Tables → A) → Quiet P (select f)
  pub inserts : (row : Item) → Quiet P (insert_item row)
  pub weaken : (c : Conn) → P c → Q c
  pub records :
      (item : Item) (t : ChangeType) (actor : ActorSnapshot)
      → Triple P (record_history ctx item t actor) (λ _. Q)
  pub stores : (seq : Option ℕ) (item : Item) → Triple Q (store_item ctx seq item) (λ _. P)

pub OnSome-Quiet :
    {A : Type 0} (P : Conn → Type 0) (p : Option A × Conn) → P p.1 → OnSome (λ _. P) p
OnSome-Quiet P (none, c) h = tt
OnSome-Quiet P (some a, c) h = h

module _ {P : Conn → Type 0} where
  pub must-Keeps : {A : Type 0} (s : Statement A) → Quiet P s → Keeps P (must s)
  must-Keeps s q = must-Triple s (λ c h. OnSome-Quiet P (s c) (q c h))

  pub attempt-Keeps : {A : Type 0} (s : Statement A) → Quiet P s → Keeps P (attempt s)
  attempt-Keeps s q = attempt-Triple s q

module _ {ctx : Context} {P Q : Conn → Type 0} (frame : Frame ctx P Q) where
  open frame use {selects, inserts, weaken, records, stores}

  actor_snapshot-Keeps : (user device : _) → Keeps P (actor_snapshot user device)
  unfolding actor_snapshot
  actor_snapshot-Keeps user device =
      bind-Keeps (attempt-Keeps _ (selects _))
        λ _. bind-Keeps (attempt-Keeps _ (selects _)) λ _. give-Keeps _

  find_path_conflict-Keeps :
      (path : Text) (exclude : Option ℕ) → Keeps P (find_path_conflict ctx path exclude)
  unfolding find_path_conflict
  find_path_conflict-Keeps path exclude = must-Keeps _ (selects _)

  create_item-Keeps :
      (seq : Option ℕ) (change : SyncPushChange) → Keeps P (create_item ctx seq change)
  unfolding create_item
  create_item-Keeps seq change = bind-Keeps (require-Keeps _ _) λ _.
      bind-Keeps (require-Keeps _ _) λ _. bind-Keeps (require-Keeps _ _) λ _.
        bind-Keeps (require-Keeps _ _) λ _. bind-Keeps (find_path_conflict-Keeps _ _) elim [
          | some at ↦ give-Keeps _
          | none ↦ bind-Keeps (must-Keeps _ (inserts _)) λ _. give-Keeps _
        ]

  update_existing-Keeps :
      (seq : Option ℕ) (change : SyncPushChange) (item : Item)
      → Keeps P (update_existing ctx seq change item)
  unfolding update_existing
  update_existing-Keeps seq change item = bind-Keeps (find_path_conflict-Keeps _ _) elim [
    | some at ↦ give-Keeps _
    | none ↦
        bind-Keeps (actor_snapshot-Keeps _ _)
          λ _. bind-Triple (if-Triple _ (records _ _ _) (give-Triple _ weaken)) λ _. stores _ _
  ]

  restore_existing-Keeps :
      (seq : Option ℕ) (change : SyncPushChange) (item : Item)
      → Keeps P (restore_existing ctx seq change item)
  unfolding restore_existing
  restore_existing-Keeps seq change item =
      bind-Keeps (actor_snapshot-Keeps _ _) λ _. bind-Triple (records _ _ _) λ _. stores _ _

  delete_existing-Keeps : (seq : Option ℕ) (item : Item) → Keeps P (delete_existing ctx seq item)
  unfolding delete_existing
  delete_existing-Keeps seq item =
      bind-Keeps (actor_snapshot-Keeps _ _) λ _. bind-Triple (records _ _ _) λ _. stores _ _

  apply_operation-Keeps :
      (t : ChangeType) (existing : Option Item) (seq : Option ℕ) (change : SyncPushChange)
      → Keeps P (apply_operation ctx t existing seq change)
  unfolding apply_operation
  apply_operation-Keeps ChangeType.create none seq change = create_item-Keeps seq change
  apply_operation-Keeps ChangeType.create (some item) seq change = give-Keeps _
  apply_operation-Keeps ChangeType.update (some item) seq change =
      update_existing-Keeps seq change item
  apply_operation-Keeps ChangeType.restore (some item) seq change =
      restore_existing-Keeps seq change item
  apply_operation-Keeps ChangeType.delete (some item) seq change = delete_existing-Keeps seq item
  apply_operation-Keeps ChangeType.update none seq change = give-Keeps _
  apply_operation-Keeps ChangeType.restore none seq change = give-Keeps _
  apply_operation-Keeps ChangeType.delete none seq change = give-Keeps _

  -- A change ends with a stale conflict or with `finish`, each from a connection with `P`.
  pub apply_change-Triple :
      {R : ApplyChangeResult → Conn → Type 0} (change : SyncPushChange)
      → ((seq : Option ℕ) → Triple P (stale_conflict ctx change.item_id seq) R)
      → ((o : Outcome) → Triple P (finish ctx change o) R)
      → Triple P (apply_change ctx change) R
  unfolding apply_change find_existing
  apply_change-Triple change stale finished = bind-Keeps (must-Keeps _ (selects _)) λ seq.
      if-Triple _ (stale seq) (
        bind-Keeps (must-Keeps _ (selects _))
          λ existing. bind-Keeps (apply_operation-Keeps _ existing seq change) λ o. finished o)
