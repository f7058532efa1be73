-- ===== src/Sync/Pull.antt =====
-- crates/zann-server/src/domains/sync/service.rs: `sync_pull`, one page of the changes of a vault.
pub mod Pages
pub mod Rows
pub mod Complete
mod Tests
use zann.Base.{
  ℕ, suc, ℤ, pos, negsuc, Bool, true, false, Option, none, some, List, [], ◌∷◌, Text, codes, take,
  map, keep, length, ltb, leb, ltb_ℤ, min, max, find_first, Result, ok, err, ◌>>=◌, ◌==◌,
  if◌then◌else◌,
}
use zann.External.{External}
use zann.Errors.{ServiceError}
use zann.Core.Structs.{Identity, Vault, Item, ItemHistory, Change}
use zann.Core.Enums.ChangeOp.{ChangeOp, as_i32, try_from}
use zann.Core.Enums.ChangeType.{ChangeType}
use zann.Core.EnumCodec.{EnumParseError}
use zann.Access.Role.{sync}
use zann.Access.Vault.{SqlError, access}
use zann.Sync.Store.{Tables, of_vault, of_item, sort_desc}
use zann.Sync.Action.{item_history_limit}
use zann.Sync.Push.{Server, prepare_sync, decode_cursor, encode_cursor}

pub record SyncPullRow : Type 0 where
  pub seq : ℕ
  pub op : ℤ
  pub item_id : ℕ
  pub path : Text
  pub name : Text
  pub type_id : Text
  pub payload_enc : List ℕ
  pub checksum : Text
  pub updated_at : ℕ

pub record SyncHistoryEntry : Type 0 where
  pub version : ℕ
  pub checksum : Text
  pub change_type : ChangeType
  pub changed_by_name : Option Text
  pub changed_by_email : Text
  pub created_at : ℕ
  pub payload_enc : List ℕ

pub record SyncPullChange : Type 0 where
  pub item_id : Text
  pub operation : ChangeType
  pub seq : ℕ
  pub updated_at : ℕ
  pub payload_enc : Option (List ℕ)
  pub checksum : Text
  pub path : Text
  pub name : Text
  pub type_id : Text
  pub history : List SyncHistoryEntry

pub record SyncPullResult : Type 0 where
  pub changes : List SyncPullChange
  pub next_cursor : Text
  pub has_more : Bool
  pub push_available : Bool

-- What may fail during a pull: the query of the rows, and that of the history of a row, by its number.
pub record PullFaults : Type 0 where
  pub rows_fail : Bool
  pub history_fails : ℕ → Bool

-- `can_push`.
unfoldable pub can_push : Server → Identity → ℕ → Bool
can_push server identity vault_id =
    elim (access server.ext server.access_db server.policies identity vault_id (codes "write")
      (codes "sync/push") sync) [ ok b ↦ b | err e ↦ false ]

-- `limit.clamp(1, most)`.
abbrev pub clamp : ℕ → ℤ → ℕ
clamp most (pos n) = max 1 (min n most)
clamp most (negsuc n) = 1

-- `ORDER BY c.seq`.
abbrev pub insert_asc : Change → List Change → List Change
insert_asc c [] = c ∷ []
insert_asc c (d ∷ ds) =
    let later = d ∷ insert_asc c ds in if leb c.seq d.seq then c ∷ (d ∷ ds) else later

abbrev pub sort_asc : List Change → List Change
sort_asc [] = []
sort_asc (c ∷ cs) = insert_asc c (sort_asc cs)

abbrev row_of : Change → Item → SyncPullRow
row_of c i = record {
  seq = c.seq;
  op = as_i32 c.op;
  item_id = i.id;
  path = i.path;
  name = i.name;
  type_id = i.type_id;
  payload_enc = i.payload_enc;
  checksum = i.checksum;
  updated_at = i.updated_at;
}

abbrev put_row : Change → Option Item → List SyncPullRow → List SyncPullRow
put_row c none rest = rest
put_row c (some i) rest = row_of c i ∷ rest

-- `FROM changes c JOIN items i ON i.id = c.item_id`.
abbrev pub join_items : List Item → List Change → List SyncPullRow
join_items items [] = []
join_items items (c ∷ cs) =
    put_row c (find_first (λ i. i.id == c.item_id) items) (join_items items cs)

abbrev pub after : ℤ → SyncPullRow → Bool
after since row = ltb_ℤ since (pos row.seq)

-- The query without its limit: `WHERE c.vault_id = $1 AND c.seq > $2`.
unfoldable pub rows_of_vault : Tables → ℕ → List SyncPullRow
rows_of_vault t vault_id = join_items t.items (keep (of_vault vault_id) (sort_asc t.changes))

unfoldable pub select_rows : Tables → ℕ → ℤ → ℕ → List SyncPullRow
unfolding rows_of_vault
select_rows t vault_id since limit = take limit (keep (after since) (rows_of_vault t vault_id))

-- `rows.len() > limit`, then `rows.truncate(limit)`.
abbrev pub has_more : ℕ → List SyncPullRow → Bool
has_more limit rows = ltb limit (length rows)

abbrev entry_of : ItemHistory → SyncHistoryEntry
entry_of h = record {
  version = h.version;
  checksum = h.checksum;
  change_type = h.change_type;
  changed_by_name = h.changed_by_name;
  changed_by_email = h.changed_by_email;
  created_at = h.created_at;
  payload_enc = h.payload_enc;
}

-- `ItemHistoryRepo::list_by_item_limit`.
abbrev pub list_by_item_limit : Tables → ℕ → List ItemHistory
list_by_item_limit t item_id =
    take item_history_limit (sort_desc (keep (of_item item_id) t.item_history))

abbrev history_of : Tables → PullFaults → SyncPullRow → List SyncHistoryEntry
history_of t faults row =
    if faults.history_fails row.seq then [] else map entry_of (list_by_item_limit t row.item_id)

abbrev pub type_of : ChangeOp → ChangeType
type_of ChangeOp.create = ChangeType.create
type_of ChangeOp.update = ChangeType.update
type_of ChangeOp.delete = ChangeType.delete

abbrev payload_of : ChangeOp → List ℕ → Option (List ℕ)
payload_of ChangeOp.delete payload = none
payload_of _ payload = some payload

abbrev pub or_bad_request : {A : Type 0} → Result EnumParseError A → Result ServiceError A
or_bad_request (ok a) = ok a
or_bad_request (err e) = err (ServiceError.bad_request "invalid_operation")

abbrev pub or_db_error : {A : Type 0} → Bool → A → Result ServiceError A
or_db_error fails a = if fails then err ServiceError.service_db_error else ok a

-- One round of the loop over the rows.
unfoldable pub pull_change :
    External → Tables → PullFaults → SyncPullRow → ChangeOp → SyncPullChange
pull_change ext t faults row op = record {
  item_id = ext.uuid_text row.item_id;
  operation = type_of op;
  seq = row.seq;
  updated_at = row.updated_at;
  payload_enc = payload_of op row.payload_enc;
  checksum = row.checksum;
  path = row.path;
  name = row.name;
  type_id = row.type_id;
  history = history_of t faults row;
}

-- The loop over the rows, and the number of the last of them.
unfoldable pub pull_changes :
    External
    → Tables
    → PullFaults
    → ℤ
    → List SyncPullRow
    → Result ServiceError (List SyncPullChange × ℤ)
unfolding pull_change
pull_changes ext t faults last_seq [] = ok ([], last_seq)
pull_changes ext t faults last_seq (row ∷ rows) = do
  op ← or_bad_request (try_from row.op)
  rest ← pull_changes ext t faults (pos row.seq) rows
  ok (pull_change ext t faults row op ∷ rest.0, rest.1)

unfoldable pub sync_pull :
    Server → PullFaults → Identity → ℕ → Option Text → ℤ → Result ServiceError SyncPullResult
unfolding select_rows can_push encode_cursor
sync_pull server faults identity vault_id cursor limit = do
  prep ← prepare_sync server identity vault_id (codes "read") (codes "sync/pull")
  since_seq ← decode_cursor server.ext cursor
  let limit = clamp 500 limit
  rows ←
      or_db_error faults.rows_fail (select_rows server.tables prep.vault.id since_seq (suc limit))
  pulled ← pull_changes server.ext server.tables faults since_seq (take limit rows)
  ok (record {
    changes = pulled.0;
    next_cursor = encode_cursor server.ext pulled.1;
    has_more = has_more limit rows;
    push_available = can_push server identity prep.vault.id;
  })
