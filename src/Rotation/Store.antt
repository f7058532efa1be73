-- ===== src/Rotation/Store.antt =====
-- crates/zann-server/src/domains/vaults/http/v1/shared: the statements of the rotation handlers, the
-- clean-up of crates/zann-server/src/infra/history.rs, and the state that the handlers share.
use mathlib.Core.Option
use zann.Base.{
  ℕ, ◌+◌, Bool, true, false, ◌&&◌, Option, none, some, List, Text, text_eq, codes, find_first, any,
  map, ltb, unwrap_or, ◌==◌, if◌then◌else◌, Result, ok, err,
}
use zann.External.{External}
use zann.Core.Structs.{Identity, Item, ItemHistory}
use zann.Access.Policy.{PolicySet}
use zann.Access.Vault.{AccessDb, is_none}
use zann.Crypto.Blob.{Bytes}
use zann.Crypto.Envelope.{Cipher}
use zann.Crypto.Vault.{PayloadJson}
use zann.Sync.Store.{User, Device}
use zann.Rotation.Types.{RotationRow, rotation_state_rotating, rotation_state_stale}

-- A row of `items`, with the columns of its rotation.
pub record ItemRow : Type 0 where
  pub item : Item
  pub rotation : RotationRow

pub record RotationDb : Type 0 where
  pub rows : List ItemRow
  pub item_history : List ItemHistory
  pub users : List User
  pub devices : List Device

-- `AppState`, as far as the handlers read it. The times of the configuration are in milliseconds.
pub record Site : Type 0 where
  pub ext : External
  pub policies : PolicySet
  pub access_db : AccessDb
  pub cipher : Cipher
  pub json : PayloadJson
  -- `blake3::hash(…).to_hex()` (crate blake3).
  pub blake3_hex : Bytes → Text
  pub server_master_key : Option Bytes
  pub lock_ttl : ℕ
  pub stale_retention : ℕ
  pub max_versions : ℕ

-- Which accesses to the database fail during one request.
pub record RotationFaults : Type 0 where
  pub item_fails : Bool
  pub rotation_fails : Bool
  pub normalize_fails : Bool
  pub write_fails : Bool
  pub acquire_fails : Bool
  pub begin_fails : Bool
  pub select_fails : Bool
  pub history_fails : Bool
  pub commit_fails : Bool
  pub prune_fails : Bool
  pub user_fails : Bool
  pub device_fails : Bool

abbrev pub is_row : ℕ → ItemRow → Bool
is_row id row = row.item.id == id

abbrev pub find_row : ℕ → RotationDb → Option ItemRow
find_row id db = find_first (is_row id) db.rows

-- `UPDATE items SET … WHERE id = $1 AND …`.
abbrev pub update_rows : ℕ → (ItemRow → Bool) → (ItemRow → ItemRow) → RotationDb → RotationDb
update_rows id test f db = record db {
  rows = map (λ r. if is_row id r && test r then f r else r) db.rows;
}

abbrev pub state_is : Text → Option Text → Bool
state_is label none = false
state_is label (some s) = text_eq s label

abbrev pub cleared : Option Text → RotationRow
cleared reason = record {
  state = none;
  candidate_enc = none;
  started_at = none;
  started_by = none;
  expires_at = none;
  recover_until = none;
  aborted_reason = reason;
}

-- `is_some_and(|value| now > value)`.
abbrev pub passed : ℕ → Option ℕ → Bool
passed now none = false
passed now (some t) = ltb t now

-- The row that `rotate_start` writes.
abbrev pub started : Site → Identity → ℕ → Bytes → RotationRow
started site identity now candidate_enc = record {
  state = some rotation_state_rotating;
  candidate_enc = some candidate_enc;
  started_at = some now;
  started_by = some identity.user_id;
  expires_at = some (now + site.lock_ttl);
  recover_until = some (now + site.lock_ttl + site.stale_retention);
  aborted_reason = none;
}

-- The statements; the start says whether it has written a row.
unfoldable pub write_start : Site → Identity → ℕ → ℕ → Bytes → RotationDb → Bool × RotationDb
write_start site identity item_id now candidate_enc db =
    let idle = λ (r : ItemRow). is_none r.rotation.state in
    (
      any (λ r. is_row item_id r && idle r) db.rows,
      update_rows item_id idle
          (λ r. record r { rotation = started site identity now candidate_enc }) db,
    )

unfoldable pub write_stale : ℕ → RotationDb → RotationDb
write_stale item_id db =
    update_rows item_id (λ r. state_is rotation_state_rotating r.rotation.state)
      (λ r. record r { rotation = record r.rotation { state = some rotation_state_stale } }) db

unfoldable pub write_abort : ℕ → Option Text → RotationDb → RotationDb
write_abort item_id reason db =
    update_rows item_id (λ r. true) (λ r. record r { rotation = cleared reason }) db

-- `prune_rotation_candidates`.
unfoldable pub prune_rotation_candidates : ℕ → RotationDb → RotationDb
prune_rotation_candidates now db = record db {
  rows =
      map
        (λ (r : ItemRow).
          if passed now r.rotation.recover_until then record r { rotation = cleared none } else r)
        db.rows;
}

-- `fetch_rotation_row`.
unfoldable pub fetch_rotation_row :
    RotationFaults → ℕ → RotationDb → Result Text (Option RotationRow)
fetch_rotation_row faults item_id db =
    if faults.rotation_fails
    then err (codes "sql")
    else ok (Option.map (λ r. r.rotation) (find_row item_id db))

-- `normalize_rotation_state`: a rotation that has run out of time is written as stale.
unfoldable pub normalize_rotation_state :
    RotationFaults → ℕ → ℕ → RotationRow → RotationDb → Result Text RotationRow × RotationDb
unfolding write_stale
normalize_rotation_state faults now item_id row db =
    if state_is rotation_state_rotating row.state && passed now row.expires_at
    then if faults.normalize_fails
      then (err (codes "sql"), db)
      else (ok (record row { state = some rotation_state_stale }), write_stale item_id db)
    else (ok row, db)

unfoldable pub rotation_state_label : Option Text → Text
rotation_state_label state = unwrap_or state (codes "active")
