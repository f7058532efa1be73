-- ===== src/Sync/Store.antt =====
-- The tables of crates/zann-server/migrations/0001_init.sql that a push reads and writes, and one
-- database connection inside a transaction.
use zann.Base.{
  ℕ, zero, suc, Bool, true, false, ◌&&◌, ◌||◌, not, Option, none, some, List, [], ◌∷◌, Text,
  text_eq, any, length, drop, keep, map, leb, max, ◌==◌, if◌then◌else◌,
}
use zann.Core.Structs.{Item, ItemHistory, Change}
use zann.Core.Enums.SyncStatus.{SyncStatus, active}

-- The columns of a user and of a device that a history entry records.
pub record User : Type 0 where
  pub id : ℕ
  pub full_name : Option Text
  pub deleted_at : Option ℕ

pub record Device : Type 0 where
  pub id : ℕ
  pub name : Text

pub record Tables : Type 0 where
  pub users : List User
  pub devices : List Device
  pub items : List Item
  pub item_history : List ItemHistory
  pub changes : List Change

-- `next_seq` is the sequence behind `changes.seq`, which a rollback does not set back. `budget` says
-- how many more statements succeed: after one failure PostgreSQL refuses the rest of a transaction.
-- `none` is a connection that does not fail.
pub record Conn : Type 0 where
  pub tables : Tables
  pub next_seq : ℕ
  pub budget : Option ℕ

abbrev pub Statement : Type 0 → Type 0
Statement A = Conn → Option A × Conn

abbrev spend : Option ℕ → Option (Option ℕ)
spend none = some none
spend (some zero) = none
spend (some (suc n)) = some (some n)

abbrev settle : {A : Type 0} → Conn → Option (A × Conn) → Option A × Conn
settle c none = (none, record c { budget = some 0 })
settle c (some (a, c')) = (some a, c')

-- Runs a statement; a body that gives `none` is refused by a constraint.
unfoldable pub execute : {A : Type 0} → (Conn → Option (A × Conn)) → Statement A
execute body c = elim (spend c.budget) [
  | none ↦ (none, c)
  | some b ↦ settle c (body (record c { budget = b }))
]

unfoldable pub select : {A : Type 0} → (Tables → A) → Statement A
unfolding execute
select f = execute (λ c. some (f c.tables, c))

abbrev pub is_active : SyncStatus → Bool
is_active active = true
is_active _ = false

abbrev pub same_id : Option ℕ → ℕ → Bool
same_id none id = false
same_id (some i) id = id == i

-- `vault_id = $1 AND path = $2 AND sync_status = 1 AND ($3 IS NULL OR id <> $3)`.
abbrev pub occupies : ℕ → Text → Option ℕ → Item → Bool
occupies vault_id path exclude row =
    row.vault_id == vault_id
    && (text_eq row.path path && (is_active row.sync_status && not (same_id exclude row.id)))

-- The unique index `idx_items_vault_path_active` refuses this row.
abbrev pub clashes : List Item → Item → Bool
clashes rows row =
    is_active row.sync_status && any (occupies row.vault_id row.path (some row.id)) rows

abbrev with_items : Conn → List Item → Conn
with_items c rows = record c { tables = record c.tables { items = rows } }

-- `INSERT INTO items`, under the primary key and the unique index.
unfoldable pub insert_item : Item → Statement (Unit {0})
unfolding execute
insert_item row = execute (λ c.
    if any (λ r. r.id == row.id) c.tables.items || clashes c.tables.items row
    then none
    else some (tt, with_items c (row ∷ c.tables.items)))

-- `UPDATE items … WHERE id = $1` of a row that keeps its id: the number of rows, under the unique index.
unfoldable pub update_item : Item → Statement ℕ
unfolding execute
update_item row = execute (λ c.
    let mine = λ (r : Item). r.id == row.id in
    if any mine c.tables.items && clashes c.tables.items row
    then none
    else some (
      length (keep mine c.tables.items),
      with_items c (map (λ r. if mine r then row else r) c.tables.items),
    ))

abbrev with_history : Conn → List ItemHistory → Conn
with_history c rows = record c { tables = record c.tables { item_history = rows } }

abbrev pub of_item : ℕ → ItemHistory → Bool
of_item item_id h = h.item_id == item_id

abbrev pub same_version : ItemHistory → ItemHistory → Bool
same_version h r = r.item_id == h.item_id && r.version == h.version

-- `INSERT INTO item_history … ON CONFLICT (item_id, version) DO NOTHING`.
unfoldable pub insert_history : ItemHistory → Statement (Unit {0})
unfolding execute
insert_history h = execute (λ c.
    if any (same_version h) c.tables.item_history
    then some (tt, c)
    else some (tt, with_history c (h ∷ c.tables.item_history)))

-- `ORDER BY version DESC`.
abbrev pub insert_desc : ItemHistory → List ItemHistory → List ItemHistory
insert_desc h [] = h ∷ []
insert_desc h (r ∷ rs) =
    let later = r ∷ insert_desc h rs in if leb r.version h.version then h ∷ (r ∷ rs) else later

abbrev pub sort_desc : List ItemHistory → List ItemHistory
sort_desc [] = []
sort_desc (h ∷ hs) = insert_desc h (sort_desc hs)

-- The rows of `SELECT id … WHERE item_id = $1 ORDER BY version DESC OFFSET $2`.
abbrev pub beyond : ℕ → ℕ → List ItemHistory → List ItemHistory
beyond item_id limit rows = drop limit (sort_desc (keep (of_item item_id) rows))

abbrev pub listed : List ItemHistory → ItemHistory → Bool
listed old h = any (λ r. r.id == h.id) old

abbrev pub prune_rows : ℕ → ℕ → List ItemHistory → List ItemHistory
prune_rows item_id limit rows = keep (λ h. not (listed (beyond item_id limit rows) h)) rows

-- `prune_item_history`: `DELETE FROM item_history WHERE id IN (…)`.
unfoldable pub prune_item_history : ℕ → ℕ → Statement (Unit {0})
unfolding execute
prune_item_history item_id limit =
    execute (λ c. some (tt, with_history c (prune_rows item_id limit c.tables.item_history)))

-- `SELECT MAX(seq)`, over the changes that pass a test.
abbrev pub max_seq : (Change → Bool) → List Change → Option ℕ
max_seq p [] = none
max_seq p (c ∷ cs) =
    let rest = max_seq p cs in
    if p c then elim rest [ none ↦ some c.seq | some m ↦ some (max c.seq m) ] else rest

abbrev pub of_vault : ℕ → Change → Bool
of_vault vault_id c = c.vault_id == vault_id

-- `INSERT INTO changes … RETURNING seq`.
unfoldable pub insert_change : (ℕ → Change) → Statement ℕ
unfolding execute
insert_change row = execute (λ c. some (
  c.next_seq,
  record c {
    tables = record c.tables { changes = row c.next_seq ∷ c.tables.changes };
    next_seq = suc c.next_seq;
  },
))
