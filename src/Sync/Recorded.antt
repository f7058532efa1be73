-- ===== src/Sync/Recorded.antt =====
-- crates/zann-server/src/domains/sync/http/v1/handlers/push_apply.rs: what an applied change leaves
-- in the tables, the item as it is stored and its entry in the change log.
use zann.Base.{
  Result, ok, err, ℕ, ◌≡◌, refl, ◌⊎◌, Bool, Bool-cases, inl, inr, Option, none, some, List, [], ◌∷◌,
  keep, length, map, find_first, arith, ◌==◌, if◌then◌else◌,
}
use zann.Core.Structs.{Item, Change}
use zann.Core.Enums.ChangeType.{ChangeType}
use zann.Core.Enums.SyncStatus
use zann.Sync.Store.{Conn, execute, insert_item, update_item}
use zann.Sync.Action.{
  Action, ApplyChangeError, SyncPushChange, SyncAppliedChange, ApplyChangeResult, applied, conflict,
}
use zann.Sync.Steps.{conflict_of, Context, Outcome, proceed, stop, store_item}
use zann.Sync.Apply.{op_of}
use zann.Sync.Triple.{OnOk, OnSome, Triple, bind-Triple, must-Triple, give-Triple}

abbrev pub with_id : ℕ → Item → Bool
with_id id r = r.id == id

-- How an item stands after an operation on it.
abbrev pub Marked : Context → ChangeType → Item → Type 0
Marked ctx ChangeType.delete item =
    (item.sync_status ≡ SyncStatus.tombstone)
    × (item.deleted_at ≡ some ctx.now)
    × (item.deleted_by_user_id ≡ some ctx.identity.user_id)
Marked ctx ChangeType.update item = Unit
Marked ctx _ item = (item.sync_status ≡ SyncStatus.active) × (item.deleted_at ≡ none)

-- The table of items holds the item under the id of the change, with this version.
pub record Stored (ctx : Context) (change : SyncPushChange) (version : ℕ) (c : Conn) : Type 0 where
  pub item : Item
  pub found : find_first (with_id change.item_id) c.tables.items ≡ some item
  pub at_version : item.version ≡ version
  pub dated : item.updated_at ≡ ctx.now
  pub marked : Marked ctx change.operation item

abbrev pub StoredAfter : Context → SyncPushChange → Outcome → Conn → Type 0
StoredAfter ctx change (proceed version) c = Stored ctx change version c
StoredAfter ctx change (stop x) c = Unit

find_first-map :
    (row : Item) (rows : List Item)
    → length (keep (with_id row.id) rows) ≡ 0
      ⊎ find_first (with_id row.id) (map (λ r. if with_id row.id r then row else r) rows) ≡ some row
find_first-map row [] = inl refl
find_first-map row (r ∷ rows) = ground (arith, find_first-map row rows)

pub insert_item_found :
    (row : Item) (c : Conn)
    → OnSome (λ _ c'. find_first (with_id row.id) c'.tables.items ≡ some row) (insert_item row c)
unfolding insert_item execute
insert_item_found row c = ground arith

update_item_found :
    (row : Item) (c : Conn)
    → OnSome
        (λ n c'. (n ≡ 0) ⊎ (find_first (with_id row.id) c'.tables.items ≡ some row))
        (update_item row c)
unfolding update_item execute
update_item_found row c = ground (arith, find_first-map row c.tables.items)

abbrev pub Anyhow : {A : Type 0} → A → Conn → Type 0
Anyhow a c = Unit

-- The entry that `log_change` writes agrees with the stored item, and the answer with the entry.
pub record Logged (ctx : Context) (change : SyncPushChange) (a : SyncAppliedChange) (c : Conn)
    : Type 0 where
  pub entry : Change
  pub earlier : List Change
  pub newest : c.tables.changes ≡ entry ∷ earlier
  pub stored : Stored ctx change entry.version c
  pub of_vault : entry.vault_id ≡ ctx.vault_id
  pub of_item : entry.item_id ≡ change.item_id
  pub operation : entry.op ≡ op_of ctx change.operation
  pub answered : a.seq ≡ entry.seq

abbrev pub Recorded : Context → SyncPushChange → ApplyChangeResult → Conn → Type 0
Recorded ctx change (applied item_id a) c = Logged ctx change a c
Recorded ctx change (conflict x) c = Unit

pub Triple-Anyhow : {A : Type 0} (P : Conn → Type 0) (m : Action A) → Triple P m Anyhow
Triple-Anyhow P m = record { holds = λ c h. go (m c) }
  where
    go : {A : Type 0} (p : Result ApplyChangeError A × Conn) → OnOk Anyhow p
    go (ok a, c) = tt
    go (err e, c) = tt

pub found_id :
    (id : ℕ) (rows : List Item) (item : Item)
    → find_first (with_id id) rows ≡ some item
    → item.id ≡ id
found_id id [] item e = cc
found_id id (r ∷ rows) item e = elim (Bool-cases (r.id == id)) [
  | inl b ↦ ground (arith, b, e)
  | inr b ↦ ground (arith, found_id id rows item, b, e)
]

module _ (ctx : Context) (change : SyncPushChange) where
  open ctx use {ext, identity, device_id, vault_id, now, history_id}

  -- An item that is ready to be stored.
  abbrev pub Ready : Item → Type 0
  Ready item =
      (item.id ≡ change.item_id) × (item.updated_at ≡ now) × Marked ctx change.operation item

  stored_outcome :
      (seq : Option ℕ) (item : Item) (n : ℕ) (c : Conn)
      → Ready item
      → (n ≡ 0) ⊎ (find_first (with_id item.id) c.tables.items ≡ some item)
      → StoredAfter ctx change
          (if n == 0
            then stop (conflict_of ctx item.id "concurrent_modification" seq item.updated_at)
            else proceed item.version)
          c
  stored_outcome seq item n c r (inl zero) = rw zero tt
  stored_outcome seq item n c r (inr e) = elim (Bool-cases (n == 0)) [
    | inl b ↦ rw b tt
    | inr b ↦
        rw b (record {
          item = item;
          found = rw (← r.0) e;
          at_version = refl;
          dated = r.1;
          marked = r.2;
        })
  ]

  pub store_item-Stored :
      {P : Conn → Type 0} (seq : Option ℕ) (item : Item)
      → Ready item
      → Triple P (store_item ctx seq item) (StoredAfter ctx change)
  unfolding store_item
  store_item-Stored seq item r =
      bind-Triple (must-Triple _ (λ c _. update_item_found item c))
        λ n. give-Triple _ (λ c h. stored_outcome seq item n c r h)
