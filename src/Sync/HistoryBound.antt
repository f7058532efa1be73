-- ===== src/Sync/HistoryBound.antt =====
-- The history of an item, through a push: an item never has more than `ITEM_HISTORY_LIMIT` entries.
use zann.Base.{
  ℕ, suc, ◌≤◌, ◌≡◌, refl, false, ◌⊎◌, inl, inr, Bool-cases, Option, none, some, List, ◌∷◌, arith,
  ◌==◌, ==_iff,
}
use zann.Core.Structs.{Item, ItemHistory, Change}
use zann.Core.Enums.ChangeType.{ChangeType}
use zann.Sync.Store.{
  Tables, Conn, execute, select, insert_item, update_item, insert_history, prune_item_history,
  prune_rows, insert_change,
}
use zann.Sync.Action.{must, attempt, SyncPushChange, item_history_limit}
use zann.Sync.Steps.{
  Context, ActorSnapshot, Outcome, proceed, stop, record_history, store_item, history_row,
}
use zann.Sync.Apply.{apply_change, log_change, finish, stale_conflict}
use zann.Sync.Frame.{OnSome-Quiet, Frame, must-Keeps, attempt-Keeps, apply_change-Triple}
use zann.Sync.Pruning.{entries, entries-prune-le, entries-prune-keeps}
use zann.Sync.Triple.{
  OnSome, Triple, Keeps, bind-Triple, bind-Keeps, must-Triple, attempt-Triple, give-Triple,
}

abbrev pub WithinLimit : List ItemHistory → Type 0
WithinLimit rows = (j : ℕ) → entries j rows ≤ item_history_limit

abbrev pub Bounded : Conn → Type 0
Bounded c = WithinLimit c.tables.item_history

-- One item may have an entry too many.
abbrev Over : ℕ → Conn → Type 0
Over i c =
    (entries i c.tables.item_history ≤ suc item_history_limit)
    × ((j : ℕ) → (i == j) ≡ false → entries j c.tables.item_history ≤ item_history_limit)

-- Between the entry and the write of the item the transaction may have failed, at the pruning.
abbrev BoundedOrDead : Conn → Type 0
BoundedOrDead c = Bounded c ⊎ (c.budget ≡ some 0)

-- The rows of the history after each statement.
select_rows : {A : Type 0} (f : Tables → A) (c : Conn) → (select f c).1.tables ≡ c.tables
unfolding select execute
select_rows f c = ground arith

insert_item_rows :
    (row : Item) (c : Conn) → (insert_item row c).1.tables.item_history ≡ c.tables.item_history
unfolding insert_item execute
insert_item_rows row c = ground arith

update_item_rows :
    (row : Item) (c : Conn) → (update_item row c).1.tables.item_history ≡ c.tables.item_history
unfolding update_item execute
update_item_rows row c = ground arith

update_item_dead : (row : Item) (c : Conn) → c.budget ≡ some 0 → (update_item row c).0 ≡ none
unfolding update_item execute
update_item_dead row c dead = rw dead refl

insert_history_rows :
    (h : ItemHistory) (c : Conn)
    → ((insert_history h c).1.tables.item_history ≡ c.tables.item_history)
      ⊎ ((insert_history h c).1.tables.item_history ≡ h ∷ c.tables.item_history)
unfolding insert_history execute
insert_history_rows h c = ground arith

insert_change_rows :
    (row : ℕ → Change) (c : Conn)
    → (insert_change row c).1.tables.item_history ≡ c.tables.item_history
unfolding insert_change execute
insert_change_rows row c = ground arith

prune_rows_of :
    (i limit : ℕ) (c : Conn)
    → ((prune_item_history i limit c).1.tables.item_history
        ≡ prune_rows i limit c.tables.item_history)
      ⊎ (((prune_item_history i limit c).1.budget ≡ some 0))
unfolding prune_item_history execute
prune_rows_of i limit c = ground arith

insert-Over :
    (h : ItemHistory) (rows rows' : List ItemHistory)
    → (rows' ≡ rows) ⊎ (rows' ≡ h ∷ rows)
    → WithinLimit rows
    → (entries h.item_id rows' ≤ suc item_history_limit)
      × ((j : ℕ) → (h.item_id == j) ≡ false → entries j rows' ≤ item_history_limit)
insert-Over h rows rows' (inl e) w = rw e (omega (arith, w h.item_id), λ j _. w j)
insert-Over h rows rows' (inr e) w =
    rw e (ground (arith, w h.item_id), λ j other. ground (arith, other, w j))

prune-Bounded :
    (i : ℕ) (rows : List ItemHistory)
    → ((j : ℕ) → (i == j) ≡ false → entries j rows ≤ item_history_limit)
    → WithinLimit (prune_rows i item_history_limit rows)
prune-Bounded i rows others j = elim (Bool-cases (i == j)) [
  | inl same ↦ rw (← (==_iff i j).0 same) (entries-prune-le i item_history_limit rows)
  | inr other ↦ omega (arith, entries-prune-keeps i item_history_limit j rows, others j other)
]

must-insert_history :
    (h : ItemHistory) → Triple Bounded (must (insert_history h)) (λ _. Over h.item_id)
must-insert_history h = must-Triple _ λ c w.
    OnSome-Quiet (Over h.item_id) (insert_history h c)
      (insert-Over h _ _ (insert_history_rows h c) w)

attempt-prune :
    (i : ℕ)
    → Triple (Over i) (attempt (prune_item_history i item_history_limit)) (λ _. BoundedOrDead)
attempt-prune i = attempt-Triple _ λ c w. elim (prune_rows_of i item_history_limit c) [
  | inl e ↦ inl (λ j. rw e (prune-Bounded i _ w.1 j))
  | inr dead ↦ inr dead
]

OnSome-none : {A : Type 0} (Q : A → Conn → Type 0) (p : Option A × Conn) → p.0 ≡ none → OnSome Q p
OnSome-none Q (none, c) e = tt
OnSome-none Q (some a, c) e = cc

module _ (ctx : Context) where
  record_history-Bounded :
      (item : Item) (t : ChangeType) (actor : ActorSnapshot)
      → Triple Bounded (record_history ctx item t actor) (λ _. BoundedOrDead)
  unfolding record_history history_row
  record_history-Bounded item t actor =
      bind-Triple (must-insert_history _)
        λ _. bind-Triple (attempt-prune _) λ _. give-Triple _ (λ c h. h)

  store_item-Bounded :
      (seq : Option ℕ) (item : Item) → Triple BoundedOrDead (store_item ctx seq item) (λ _. Bounded)
  unfolding store_item
  store_item-Bounded seq item =
      bind-Triple
        (must-Triple _ λ c h. elim h [
          | inl w ↦
              OnSome-Quiet Bounded (update_item item c) (λ j. rw (update_item_rows item c) (w j))
          | inr dead ↦ OnSome-none _ (update_item item c) (update_item_dead item c dead)
        ])
        λ _. give-Triple _ (λ c h. h)

  Bounded-Frame : Frame ctx Bounded BoundedOrDead
  Bounded-Frame = record {
    selects = λ f c w j. rw (select_rows f c) (w j);
    inserts = λ row c w j. rw (insert_item_rows row c) (w j);
    weaken = λ c w. inl w;
    records = record_history-Bounded;
    stores = store_item-Bounded;
  }

  finish-Bounded : (change : SyncPushChange) (o : Outcome) → Keeps Bounded (finish ctx change o)
  unfolding finish log_change
  finish-Bounded change (stop x) = give-Triple _ (λ c h. h)
  finish-Bounded change (proceed version) =
      bind-Keeps (must-Keeps _ λ c w j. rw (insert_change_rows _ c) (w j))
        λ seq. give-Triple _ (λ c h. h)

  stale_conflict-Bounded : (id : ℕ) (seq : Option ℕ) → Keeps Bounded (stale_conflict ctx id seq)
  unfolding stale_conflict
  stale_conflict-Bounded id seq =
      bind-Keeps (attempt-Keeps _ (Bounded-Frame.selects _)) λ _. give-Triple _ (λ c h. h)

  pub apply_change-Bounded : (change : SyncPushChange) → Keeps Bounded (apply_change ctx change)
  apply_change-Bounded change =
      apply_change-Triple Bounded-Frame change (stale_conflict-Bounded _) (finish-Bounded change)
