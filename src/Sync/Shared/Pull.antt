-- ===== src/Sync/Shared/Pull.antt =====
-- crates/zann-server/src/domains/sync/service.rs: `sync_shared_pull`, a page of changes with their
-- payloads decrypted.
use zann.Base.{
  ℕ, suc, ℤ, pos, Bool, true, false, ◌&&◌, not, Option, none, some, List, [], ◌∷◌, Text, codes,
  is_empty, take, keep, leb, Result, ok, ◌>>=◌, ◌==◌, if◌then◌else◌,
}
use zann.External.{External}
use zann.Errors.{ServiceError}
use zann.Core.Structs.{Identity, Item, ItemHistory}
use zann.Core.Enums.ChangeOp.{ChangeOp, try_from}
use zann.Core.Enums.ChangeType.{ChangeType}
use zann.Access.Vault.{is_none}
use zann.Crypto.Blob.{Bytes}
use zann.Crypto.Vault.{decrypt_vault_key}
use zann.Sync.Store.{Tables}
use zann.Sync.Push.{Server, decode_cursor, encode_cursor, last_seq}
use zann.Sync.Pull.{
  SyncPullRow, PullFaults, can_push, clamp, select_rows, has_more, list_by_item_limit, type_of,
  or_bad_request, or_db_error,
}
use zann.Sync.Shared.{JsonCodec, Keys, or_internal, prepare_shared, read_payload}

pub record SyncSharedHistoryEntry (Json : Type 0) : Type 0 where
  pub version : ℕ
  pub checksum : Text
  pub change_type : ChangeType
  pub changed_by_name : Option Text
  pub changed_by_email : Text
  pub created_at : Text
  pub payload : Json

pub record SyncSharedPullChange (Json : Type 0) : Type 0 where
  pub item_id : Text
  pub operation : ChangeType
  pub seq : ℤ
  pub updated_at : Text
  pub payload : Option Json
  pub checksum : Text
  pub path : Text
  pub name : Text
  pub type_id : Text
  pub history : List (SyncSharedHistoryEntry Json)

pub record SyncSharedPullResult (Json : Type 0) : Type 0 where
  pub changes : List (SyncSharedPullChange Json)
  pub next_cursor : Text
  pub has_more : Bool
  pub push_available : Bool

-- What may fail besides the queries of a pull. The history of an item is asked for by the item's id.
pub record SharedFaults : Type 0 where
  pub pull : PullFaults
  pub items_fail : Bool
  pub last_seq_fails : Bool

-- `ItemRepo::list_by_vault` with the deleted items: `ORDER BY updated_at DESC`.
abbrev pub insert_newest : Item → List Item → List Item
insert_newest i [] = i ∷ []
insert_newest i (j ∷ js) =
    let later = j ∷ insert_newest i js in
    if leb j.updated_at i.updated_at then i ∷ (j ∷ js) else later

abbrev pub sort_newest : List Item → List Item
sort_newest [] = []
sort_newest (i ∷ is) = insert_newest i (sort_newest is)

abbrev pub list_by_vault : Tables → ℕ → List Item
list_by_vault t vault_id = sort_newest (keep (λ i. i.vault_id == vault_id) t.items)

module _ {Json : Type 0} (codec : JsonCodec Json) (keys : Keys) (ext : External) (t : Tables)
    (vault_key : Bytes) (vault_id : ℕ) where
  -- The loop over the entries of a history.
  unfoldable pub read_entries :
      ℕ → List ItemHistory → Result ServiceError (List (SyncSharedHistoryEntry Json))
  unfolding read_payload
  read_entries item_id [] = ok []
  read_entries item_id (h ∷ hs) = do
    payload ← read_payload codec keys vault_key vault_id item_id h.payload_enc
    rest ← read_entries item_id hs
    ok (
        record {
          version = h.version;
          checksum = h.checksum;
          change_type = h.change_type;
          changed_by_name = h.changed_by_name;
          changed_by_email = h.changed_by_email;
          created_at = ext.rfc3339 h.created_at;
          payload = payload;
        }
        ∷ rest)

  unfoldable pub read_history : Bool → ℕ → Result ServiceError (List (SyncSharedHistoryEntry Json))
  unfolding read_entries
  read_history fails item_id =
      if fails then ok [] else read_entries item_id (list_by_item_limit t item_id)

  abbrev keep_payload : Bool → ℕ → Bytes → Result ServiceError (Option Json)
  keep_payload true item_id payload_enc = ok none
  keep_payload false item_id payload_enc = do
    payload ← read_payload codec keys vault_key vault_id item_id payload_enc
    ok (some payload)

  abbrev deletes : ChangeOp → Bool
  deletes ChangeOp.delete = true
  deletes _ = false

  -- The loop over the rows, and the number of the last of them.
  unfoldable pub shared_changes :
      (ℕ → Bool) → ℤ → List SyncPullRow → Result ServiceError (List (SyncSharedPullChange Json) × ℤ)
  unfolding read_payload read_history
  shared_changes history_fails last [] = ok ([], last)
  shared_changes history_fails last (row ∷ rows) = do
    op ← or_bad_request (try_from row.op)
    payload ← keep_payload (deletes op) row.item_id row.payload_enc
    history ← read_history (history_fails row.seq) row.item_id
    rest ← shared_changes history_fails (pos row.seq) rows
    ok (
      record {
        item_id = ext.uuid_text row.item_id;
        operation = type_of op;
        seq = pos row.seq;
        updated_at = ext.rfc3339 row.updated_at;
        payload = payload;
        checksum = row.checksum;
        path = row.path;
        name = row.name;
        type_id = row.type_id;
        history = history;
      }
          ∷ rest.0,
      rest.1,
    )

  -- All the items of a vault that has no changes, for a client that starts.
  unfoldable pub snapshot :
      (ℕ → Bool) → ℕ → List Item → Result ServiceError (List (SyncSharedPullChange Json))
  unfolding read_payload read_history
  snapshot history_fails seq [] = ok []
  snapshot history_fails seq (item ∷ items) = do
    payload ← keep_payload (not (is_none item.deleted_at)) item.id item.payload_enc
    history ← read_history (history_fails item.id) item.id
    rest ← snapshot history_fails seq items
    ok (
        record {
          item_id = ext.uuid_text item.id;
          operation = if is_none item.deleted_at then ChangeType.update else ChangeType.delete;
          seq = pos seq;
          updated_at = ext.rfc3339 item.updated_at;
          payload = payload;
          checksum = item.checksum;
          path = item.path;
          name = item.name;
          type_id = item.type_id;
          history = history;
        }
        ∷ rest)

abbrev is_zero : ℤ → Bool
is_zero (pos n) = n == 0
is_zero _ = false

module _ {Json : Type 0} (codec : JsonCodec Json) (keys : Keys) where
  unfoldable pub sync_shared_pull :
      Server
      → SharedFaults
      → Identity
      → ℕ
      → Option Text
      → ℤ
      → Result ServiceError (SyncSharedPullResult Json)
  unfolding select_rows can_push encode_cursor shared_changes snapshot last_seq
  sync_shared_pull server faults identity vault_id cursor limit = do
    prep ← prepare_shared server keys identity vault_id (codes "read") (codes "sync/shared/pull")
    let vault = prep.0
    vault_key ←
        or_internal "payload_decrypt_failed"
          (decrypt_vault_key keys.cipher prep.1 vault.id vault.vault_key_enc)
    since_seq ← decode_cursor server.ext cursor
    let limit = clamp 250 limit
    rows ←
        or_db_error faults.pull.rows_fail (select_rows server.tables vault.id since_seq (suc limit))
    let start = do
      items ← or_db_error faults.items_fail (list_by_vault server.tables vault.id)
      let seq = last_seq faults.last_seq_fails server.tables vault.id
      changes ←
          snapshot codec keys server.ext server.tables vault_key vault.id faults.pull.history_fails
            seq items
      ok (record {
        changes = changes;
        next_cursor = encode_cursor server.ext (pos seq);
        has_more = false;
        push_available = can_push server identity vault.id;
      })
    let page = do
      pulled ←
          shared_changes codec keys server.ext server.tables vault_key vault.id
            faults.pull.history_fails since_seq (take limit rows)
      ok (record {
        changes = pulled.0;
        next_cursor = encode_cursor server.ext pulled.1;
        has_more = has_more limit rows;
        push_available = can_push server identity vault.id;
      })
    if is_zero since_seq && is_empty rows then start else page
