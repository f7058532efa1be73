-- ===== src/Sync/Push.antt =====
-- crates/zann-server/src/domains/sync/service.rs and http/v1/helpers.rs: authorisation of a
-- synchronisation, cursors, and `sync_push` with its transaction.
use zann.Base.{
  ℕ, suc, Bool, not, ℤ, pos, Option, none, some, List, [], ◌∷◌, ◌++◌, Text, codes, is_empty,
  unwrap_or, Result, ok, err, ok_or, ensure, ◌>>=◌, ◌>>◌, if◌then◌else◌,
}
use zann.External.{External}
use zann.Errors.{ServiceError}
use zann.Core.Structs.{Identity, Vault}
use zann.Access.Policy.{PolicySet}
use zann.Access.Role.{sync}
use zann.Access.Vault.{AccessDb, SqlError, get_vault, access}
use zann.Sync.Store.{Tables, Conn, max_seq, of_vault}
use zann.Sync.Action.{
  SyncPushChange, SyncAppliedChange, SyncPushConflict, bad_request, internal_server_error,
  ApplyChangeError, ApplyChangeResult, applied, conflict, Action, give, ◌>>=◌ as ◌>>=ₐ◌,
}
use zann.Sync.Steps.{Context}
use zann.Sync.Apply.{apply_change}

-- The state behind `AppState` that a push touches, and what may fail during one push: `budget` is the
-- number of statements of the transaction that succeed.
pub record Server : Type 0 where
  pub ext : External
  pub policies : PolicySet
  pub access_db : AccessDb
  pub tables : Tables
  pub next_seq : ℕ

pub record PushFaults : Type 0 where
  pub begin_fails : Bool
  pub isolation_fails : Bool
  pub budget : Option ℕ
  pub rollback_fails : Bool
  pub commit_fails : Bool
  pub last_seq_fails : Bool

pub record SyncPrep : Type 0 where
  pub vault : Vault
  pub device_id : ℕ

pub record SyncPushResult : Type 0 where
  pub applied_ids : List Text
  pub applied_changes : List SyncAppliedChange
  pub conflicts : List SyncPushConflict
  pub new_cursor : Text

-- `Err(_) => return Err(DbError)`.
abbrev or_db_error {ℓ} : {A : Type ℓ} → Result SqlError A → Result ServiceError A
or_db_error (ok a) = ok a
or_db_error (err e) = err ServiceError.service_db_error

unfoldable pub prepare_sync : Server → Identity → ℕ → Text → Text → Result ServiceError SyncPrep
prepare_sync server identity vault_id action resource = do
  device_id ← ok_or identity.device_id ServiceError.device_required
  row ← or_db_error (get_vault server.access_db vault_id)
  vault ← ok_or row ServiceError.not_found
  permitted ←
      or_db_error
        (access server.ext server.access_db server.policies identity vault.id action resource sync)
  ensure permitted ServiceError.forbidden_no_body
  ok (record { vault = vault; device_id = device_id })

unfoldable pub encode_cursor : External → ℤ → Text
encode_cursor ext seq = ext.base64_encode (ext.cursor_to_vec seq)

-- The error is `invalid_cursor`.
unfoldable pub decode_cursor : External → Option Text → Result ServiceError ℤ
decode_cursor ext none = ok (pos 0)
decode_cursor ext (some cursor) = do
  decoded ← ok_or (ext.base64_decode cursor) (ServiceError.bad_request "invalid_cursor")
  ok_or (ext.cursor_from_slice decoded) (ServiceError.bad_request "invalid_cursor")

-- `last_seq_for_vault(…).unwrap_or(0)`.
unfoldable pub last_seq : Bool → Tables → ℕ → ℕ
last_seq fails tables vault_id =
    if fails then 0 else unwrap_or (max_seq (of_vault vault_id) tables.changes) 0

pub record Progress : Type 0 where
  pub applied_ids : List Text
  pub applied_changes : List SyncAppliedChange
  pub conflicts : List SyncPushConflict

abbrev pub start : Progress
start = record { applied_ids = []; applied_changes = []; conflicts = [] }

abbrev pub note : External → Progress → ApplyChangeResult → Progress
note ext p (applied item_id change) = record p {
  applied_ids = p.applied_ids ++ ext.uuid_text item_id ∷ [];
  applied_changes = p.applied_changes ++ change ∷ [];
}
note ext p (conflict c) = record p { conflicts = p.conflicts ++ c ∷ [] }

-- The loop over the changes. `Uuid::now_v7()` gives fresh ids in turn.
unfoldable pub push_changes : Context → ℕ → Progress → List SyncPushChange → Action Progress
push_changes ctx fresh p [] = give p
push_changes ctx fresh p (change ∷ changes) =
    apply_change (record ctx { history_id = fresh }) change >>=ₐ λ r.
    push_changes ctx (suc fresh) (note ctx.ext p r) changes

abbrev error_of : ApplyChangeError → ServiceError
error_of e = elim e.status [
  | bad_request ↦ ServiceError.bad_request e.error
  | internal_server_error ↦ ServiceError.internal e.error
]

-- The end of the transaction, after the loop.
unfoldable pub conclude :
    Server
    → PushFaults
    → ℕ
    → Result ApplyChangeError Progress × Conn
    → Result ServiceError SyncPushResult × Server
conclude server faults vault_id (err e, c) =
    let kept = record server { next_seq = c.next_seq } in
    if faults.rollback_fails
    then (err ServiceError.service_db_error, kept)
    else (err (error_of e), kept)
conclude server faults vault_id (ok p, c) =
    let kept = record server { next_seq = c.next_seq } in
    let committed = record server { tables = c.tables; next_seq = c.next_seq } in
    let cursor = λ (tables : Tables).
      encode_cursor server.ext (pos (last_seq faults.last_seq_fails tables vault_id)) in
    if not (is_empty p.conflicts)
    then if faults.rollback_fails then (err ServiceError.service_db_error, kept) else (
      ok (record {
        applied_ids = [];
        applied_changes = [];
        conflicts = p.conflicts;
        new_cursor = cursor server.tables;
      }),
      kept,
    )
    else if faults.commit_fails
    then (err ServiceError.service_db_error, kept)
    else (
      ok (record {
        applied_ids = p.applied_ids;
        applied_changes = p.applied_changes;
        conflicts = p.conflicts;
        new_cursor = cursor c.tables;
      }),
      committed,
    )

unfoldable pub run_push :
    Server
    → PushFaults
    → Identity
    → ℕ
    → ℕ
    → List SyncPushChange
    → SyncPrep
    → Result ServiceError SyncPushResult × Server
run_push server faults identity now fresh changes prep =
    let ctx : Context = record {
      ext = server.ext;
      identity = identity;
      device_id = prep.device_id;
      vault_id = prep.vault.id;
      now = now;
      history_id = fresh;
    } in
    let conn : Conn = record {
      tables = server.tables;
      next_seq = server.next_seq;
      budget = faults.budget;
    } in
    if faults.begin_fails
    then (err ServiceError.service_db_error, server)
    else if faults.isolation_fails
    then (err ServiceError.service_db_error, server)
    else conclude server faults prep.vault.id (push_changes ctx fresh start changes conn)

unfoldable pub sync_push :
    Server
    → PushFaults
    → Identity
    → ℕ
    → ℕ
    → ℕ
    → List SyncPushChange
    → Result ServiceError SyncPushResult × Server
sync_push server faults identity vault_id now fresh changes =
    elim (prepare_sync server identity vault_id (codes "write") (codes "sync/push")) [
      | err e ↦ (err e, server)
      | ok prep ↦ run_push server faults identity now fresh changes prep
    ]
