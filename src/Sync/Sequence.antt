-- ===== src/Sync/Sequence.antt =====
-- The numbers in the change log: one change of a push takes exactly one number, the next one.
use zann.Base.{ℕ, suc, ◌≡◌, refl, Option, List, ◌∷◌, arith}
use zann.Core.Structs.{Item, ItemHistory, Change}
use zann.Core.Enums.ChangeType.{ChangeType}
use zann.Sync.Store.{
  Tables, Conn, execute, select, insert_item, update_item, insert_history, prune_item_history,
  insert_change,
}
use zann.Sync.Action.{SyncPushChange, ApplyChangeResult, applied, conflict}
use zann.Sync.Steps.{Context, ActorSnapshot, Outcome, proceed, stop, record_history, store_item}
use zann.Sync.Apply.{op_of, apply_change, log_change, finish, stale_conflict}
use zann.Sync.Frame.{Quiet, Frame, must-Keeps, attempt-Keeps, apply_change-Triple}
use zann.Sync.Triple.{
  OnSome, Triple, Keeps, bind-Triple, bind-Keeps, must-Triple, give-Triple, give-Keeps,
}

-- The entry of the change log for a change of a push, under the number `n`.
abbrev pub IsEntry : Context → ℕ → SyncPushChange → Change → Type 0
IsEntry ctx n change e =
    (e.seq ≡ n)
    × (e.vault_id ≡ ctx.vault_id)
    × (e.item_id ≡ change.item_id)
    × (e.op ≡ op_of ctx change.operation)
    × (e.device_id ≡ ctx.device_id)

module _ (n : ℕ) (log : List Change) where
  abbrev pub At : Conn → Type 0
  At c = (c.next_seq ≡ n) × (c.tables.changes ≡ log)

  select-Quiet : {A : Type 0} (f : Tables → A) → Quiet At (select f)
  unfolding select execute
  select-Quiet f c h = ground arith

  insert_item-Quiet : (row : Item) → Quiet At (insert_item row)
  unfolding insert_item execute
  insert_item-Quiet row c h = ground arith

  update_item-Quiet : (row : Item) → Quiet At (update_item row)
  unfolding update_item execute
  update_item-Quiet row c h = ground arith

  insert_history-Quiet : (h : ItemHistory) → Quiet At (insert_history h)
  unfolding insert_history execute
  insert_history-Quiet r c h = ground arith

  prune-Quiet : (id limit : ℕ) → Quiet At (prune_item_history id limit)
  unfolding prune_item_history execute
  prune-Quiet id limit c h = ground arith

  module _ (ctx : Context) where
    record_history-At :
        (item : Item) (t : ChangeType) (actor : ActorSnapshot)
        → Keeps At (record_history ctx item t actor)
    unfolding record_history
    record_history-At item t actor =
        bind-Keeps (must-Keeps _ (insert_history-Quiet _))
          λ _. bind-Keeps (attempt-Keeps _ (prune-Quiet _ _)) λ _. give-Keeps _

    store_item-At : (seq : Option ℕ) (item : Item) → Keeps At (store_item ctx seq item)
    unfolding store_item
    store_item-At seq item = bind-Keeps (must-Keeps _ (update_item-Quiet _)) λ _. give-Keeps _

    At-Frame : Frame ctx At At
    At-Frame = record {
      selects = λ f. select-Quiet f;
      inserts = insert_item-Quiet;
      weaken = λ c h. h;
      records = record_history-At;
      stores = store_item-At;
    }

    -- An applied change has taken the number `n` for its entry in the log; a conflict has taken none.
    abbrev pub Advances : SyncPushChange → ApplyChangeResult → Conn → Type 0
    Advances change (applied item_id a) c =
        (item_id ≡ change.item_id)
        × (a.seq ≡ n)
        × (c.next_seq ≡ suc n)
        × ((entry : Change) × (IsEntry ctx n change entry × (c.tables.changes ≡ entry ∷ log)))
    Advances change (conflict x) c = At c

    insert_change_advances :
        (row : ℕ → Change) (c : Conn)
        → At c
        → OnSome
            (λ seq c'. (seq ≡ n) × (c'.next_seq ≡ suc n) × (c'.tables.changes ≡ row seq ∷ log))
            (insert_change row c)
    unfolding insert_change execute
    insert_change_advances row c h = ground arith

    finish-Advances :
        (change : SyncPushChange) (o : Outcome) → Triple At (finish ctx change o) (Advances change)
    unfolding finish log_change
    finish-Advances change (stop x) = give-Triple _ (λ c h. h)
    finish-Advances change (proceed version) =
        bind-Triple (must-Triple _ (insert_change_advances _))
          λ seq. give-Triple _ (λ c h. (refl, h.0, h.1, (_, ((h.0, refl, refl, refl, refl), h.2))))

    stale_conflict-Advances :
        (change : SyncPushChange) (id : ℕ) (seq : Option ℕ)
        → Triple At (stale_conflict ctx id seq) (Advances change)
    unfolding stale_conflict
    stale_conflict-Advances change id seq =
        bind-Keeps (attempt-Keeps _ (select-Quiet _)) λ _. give-Triple _ (λ c h. h)

    pub apply_change-Advances :
        (change : SyncPushChange) → Triple At (apply_change ctx change) (Advances change)
    apply_change-Advances change =
        apply_change-Triple At-Frame change (stale_conflict-Advances change _)
          (finish-Advances change)
