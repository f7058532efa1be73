-- ===== src/Items/Written.antt =====
-- crates/zann-server/src/domains/items/service.rs: what a successful write does to the items and to the
-- change log.
use mathlib.Core.Path.{subst}
use zann.Base.{
  sym, ok, if◌then◌else◌, ◌≢◌, ℕ, ◌≡◌, ◌≢◌, ◌∙◌, refl, ap, true, false, Bool-cases, inl, inr, ◌||◌,
  List, [], ◌∷◌, any, Option, none, some, arith, ◌==◌, find_first,
}
use zann.Core.Structs.{Vault, Item, ItemHistory}
use zann.Sync.Store.{clashes, same_version}
use zann.Auth.Keyed.{some-inj, find_first-test}
use zann.Items.Store.{
  create_change, item_by_id, with_rows, mark_deleted_by_item, purge_deleted_before,
  clear_deleted_by_item, ItemDb, ItemFaults, create_history, prune_by_item, same_row, next_row,
  put_row,
}
use zann.Items.Plan.{Upkeep, untouched, restored, removed, Planned}
use zann.Items.Write.{change_of, write_row, run_plan, record_entry, keep_attachments, prepare_write}

-- The changed row is found by its id.
find-put_row :
    (rows : List Item) (id : ℕ) (old new : Item)
    → find_first (λ i. i.id == id) rows ≡ some old
    → new.id ≡ old.id
    → new.row_version ≡ old.row_version
    → find_first (λ i. i.id == id) (put_row new rows) ≡ some (next_row new)
find-put_row [] id old new e same_id same_version = cc
find-put_row (r ∷ rs) id old new e same_id same_version = elim (Bool-cases (r.id == id)) [
  | inl k ↦
      let at_head : r ≡ old = some-inj r old (rw k at e) in
      let mine : same_row new r ≡ true = ground (
        arith,
        same_id,
        same_version,
        ap (λ (x : Item). x.id) at_head,
        ap (λ (x : Item). x.row_version) at_head,
      ) in
      let named : (new.id == id) ≡ true =
        ground (arith, same_id, k, ap (λ (x : Item). x.id) at_head) in
      rw (mine, named) refl
  | inr k ↦
      let rest = find-put_row rs id old new (rw k at e) same_id same_version in
      elim (Bool-cases (same_row new r)) [
        | inl m ↦
            let named : (old.id == id) ≡ true =
              find_first-test (λ i. i.id == id) rs old (rw k at e) in
            absurd (ground (arith, m, same_id, k, named))
        | inr m ↦ rw (m, k) rest
      ]
]

-- Rows of other ids stay.
find-put_row_other :
    (rows : List Item) (id : ℕ) (new : Item)
    → new.id ≢ id
    → find_first (λ i. i.id == id) (put_row new rows) ≡ find_first (λ i. i.id == id) rows
find-put_row_other [] id new ne = refl
find-put_row_other (r ∷ rs) id new ne =
    let rest = find-put_row_other rs id new ne in
    elim (Bool-cases (same_row new r)) [
      | inl m ↦
          let other : (new.id == id) ≡ false = ground (arith, ne) in
          let same : (r.id == id) ≡ false = ground (arith, ne, m) in rw (m, other, same) rest
      | inr m ↦ elim (Bool-cases (r.id == id)) [ inl k ↦ rw (m, k) refl | inr k ↦ rw (m, k) rest ]
    ]

-- History and attachments leave the items and the change log alone.
pub Keeps : ItemDb → ItemDb → Type 0
Keeps db db' =
    (db'.tables.items ≡ db.tables.items)
    × (db'.tables.changes ≡ db.tables.changes)
    × (db'.next_seq ≡ db.next_seq)

create_history-Keeps :
    (faults : ItemFaults) (h : ItemHistory) (db : ItemDb) → Keeps db (create_history faults h db)
unfolding create_history Keeps
create_history-Keeps faults h db =
    elim (Bool-cases (
      faults.history_insert_fails
      || any (λ r. same_version h r || r.id == h.id) db.tables.item_history)) [
        | inl k ↦ rw k (refl, refl, refl)
        | inr k ↦ rw k (refl, refl, refl)
      ]

prune_by_item-Keeps :
    (faults : ItemFaults) (id : ℕ) (db : ItemDb) → Keeps db (prune_by_item faults id db)
unfolding prune_by_item Keeps
prune_by_item-Keeps faults id db = elim (Bool-cases faults.prune_fails) [
  | inl k ↦ rw k (refl, refl, refl)
  | inr k ↦ rw k (refl, refl, refl)
]

Keeps-trans : (a b c : ItemDb) → Keeps a b → Keeps b c → Keeps a c
unfolding Keeps
Keeps-trans a b c h k = (k.0 ∙ h.0, k.1 ∙ h.1, k.2 ∙ h.2)

record_entry-Keeps :
    (faults : ItemFaults) (h : Option ItemHistory) (db : ItemDb)
    → Keeps db (record_entry faults h db)
unfolding Keeps
record_entry-Keeps faults none db = (refl, refl, refl)
record_entry-Keeps faults (some h) db =
    Keeps-trans db (create_history faults h db) (record_entry faults (some h) db)
      (create_history-Keeps faults h db)
      (prune_by_item-Keeps faults h.item_id (create_history faults h db))

keep_attachments-Keeps :
    (faults : ItemFaults) (id now : ℕ) (u : Upkeep) (db : ItemDb)
    → Keeps db (keep_attachments faults id now u db)
unfolding Keeps mark_deleted_by_item purge_deleted_before clear_deleted_by_item
keep_attachments-Keeps faults id now untouched db = (refl, refl, refl)
keep_attachments-Keeps faults id now restored db = elim (Bool-cases faults.clear_fails) [
  | inl k ↦ rw k (refl, refl, refl)
  | inr k ↦ rw k (refl, refl, refl)
]
keep_attachments-Keeps faults id now (removed cutoff) db = elim (Bool-cases faults.mark_fails) [
  | inl k ↦ elim (Bool-cases faults.purge_fails) [
    | inl l ↦ rw (k, l) (refl, refl, refl)
    | inr l ↦ rw (k, l) (refl, refl, refl)
  ]
  | inr k ↦ elim (Bool-cases faults.purge_fails) [
    | inl l ↦ rw (k, l) (refl, refl, refl)
    | inr l ↦ rw (k, l) (refl, refl, refl)
  ]
]

prepare_write-Keeps :
    (faults : ItemFaults) (p : Planned) (db : ItemDb) → Keeps db (prepare_write faults p db)
unfolding prepare_write
prepare_write-Keeps faults p db =
    Keeps-trans db (record_entry faults p.history db) (prepare_write faults p db)
      (record_entry-Keeps faults p.history db)
      (keep_attachments-Keeps faults p.item.id p.item.updated_at p.upkeep
        (record_entry faults p.history db))

-- What a write did: the row of the item is the new one, with the next row version, in its vault; the
-- other rows stay; the change log has one more entry, unless that statement failed.
pub record Written (faults : ItemFaults) (p : Planned) (old : Item) (item_id other : ℕ)
    (db db' : ItemDb) : Type 0 where
  pub old_row : item_by_id db item_id ≡ some old
  pub in_vault : old.vault_id ≡ p.vault.id
  pub row : item_by_id db' item_id ≡ some (next_row p.item)
  pub others : item_by_id db' other ≡ item_by_id db other
  pub logged : db'.tables.changes ≡ (
      if faults.change_insert_fails
      then db.tables.changes
      else change_of p db.next_seq ∷ db.tables.changes)

-- A plan for a row of the database.
pub record Target (db : ItemDb) (item_id : ℕ) (old : Item) (p : Planned) : Type 0 where
  pub row : item_by_id db item_id ≡ some old
  pub in_vault : old.vault_id ≡ p.vault.id
  pub same_id : p.item.id ≡ old.id
  pub same_version : p.item.row_version ≡ old.row_version

module _ (faults : ItemFaults) (p : Planned) (item_id other : ℕ) (old : Item)
    (db prepared : ItemDb) where
  abbrev stored : ItemDb
  stored = with_rows (put_row p.item prepared.tables.items) prepared

  stored-Written :
      Target db item_id old p
      → other ≢ item_id
      → Keeps db prepared
      → Written faults p old item_id other db (create_change faults (change_of p) stored)
  unfolding create_change item_by_id Keeps
  stored-Written t apart keeps =
      let named : (old.id == item_id) ≡ true =
        find_first-test (λ i. i.id == item_id) db.tables.items old t.row in
      let away : p.item.id ≢ other = λ e. ground (arith, named, t.same_id, apart, e) in
      let row : find_first (λ i. i.id == item_id) (put_row p.item prepared.tables.items)
          ≡ some (next_row p.item) =
        subst
          (λ rows. find_first (λ i. i.id == item_id) (put_row p.item rows) ≡ some (next_row p.item))
          (sym keeps.0)
          (find-put_row db.tables.items item_id old p.item t.row t.same_id t.same_version) in
      let others : find_first (λ i. i.id == other) (put_row p.item prepared.tables.items)
          ≡ find_first (λ i. i.id == other) db.tables.items =
        subst
          (λ rows.
            find_first (λ i. i.id == other) (put_row p.item rows)
            ≡ find_first (λ i. i.id == other) db.tables.items)
          (sym keeps.0) (find-put_row_other db.tables.items other p.item away) in
      elim (Bool-cases faults.change_insert_fails) [
        | inl f ↦ record {
          old_row = t.row;
          in_vault = t.in_vault;
          row = rw f row;
          others = rw f others;
          logged = rw f keeps.1;
        }
        | inr f ↦ record {
          old_row = t.row;
          in_vault = t.in_vault;
          row = rw f row;
          others = rw f others;
          logged = rw (f, keeps.1, keeps.2) refl;
        }
      ]

module _ (faults : ItemFaults) (p : Planned) (item_id other : ℕ) (old : Item) (db db' : ItemDb)
    (done : Vault × Item) where
  pub run_plan-Written :
      Target db item_id old p
      → other ≢ item_id
      → run_plan faults (ok p) db ≡ (ok done, db')
      → (done ≡ (p.vault, p.item)) × Written faults p old item_id other db db'
  unfolding write_row create_change item_by_id Keeps
  run_plan-Written t apart e =
      let prepared = prepare_write faults p db in
      let keeps = prepare_write-Keeps faults p db in
      elim (Bool-cases faults.item_write_fails) [
        | inl a ↦ absurd (ground (arith, e, a))
        | inr a ↦ elim (Bool-cases (any (same_row p.item) prepared.tables.items)) [
          | inr b ↦ absurd (ground (arith, e, a, b))
          | inl b ↦ elim (Bool-cases (clashes prepared.tables.items p.item)) [
            | inl c ↦ absurd (ground (arith, e, a, b, c))
            | inr c ↦
                let answer : done ≡ (p.vault, p.item) = ground (arith, e, a, b, c) in
                let result : db'
                    ≡ create_change faults (change_of p)
                        (stored faults p item_id other old db prepared) =
                  ground (arith, e, a, b, c) in
                (
                  answer,
                  subst (λ d. Written faults p old item_id other db d) (sym result)
                      (stored-Written faults p item_id other old db prepared t apart keeps),
                )
          ]
        ]
      ]
