-- ===== src/Rotation/Commit.antt =====
-- crates/zann-server/src/domains/vaults/http/v1/shared/handlers/rotation_commit.rs: the candidate
-- becomes the password of the item, in one transaction.
use mathlib.Core.Option
use zann.Base.{
  ℕ, ◌+◌, ◌&&◌, ◌||◌, not, Option, none, some, List, [], ◌∷◌, Text, codes, unwrap_or, find_first,
  any, ◌==◌, Result, ok, err, ok_or, ensure, ◌>>=◌, ◌>>◌, if◌then◌else◌,
}
use zann.Core.Structs.{Identity, Vault, Item, ItemHistory}
use zann.Core.Enums.ChangeType
use zann.Access.Vault.{is_none}
use zann.Crypto.Blob.{Bytes}
use zann.Crypto.Envelope.{Draws}
use zann.Crypto.Vault.{FieldValue, decrypt_vault_key, decrypt_payload, encrypt_payload}
use zann.Sync.Store.{same_version, prune_rows}
use zann.Sync.Steps.{ActorSnapshot}
use zann.Rotation.Types.{
  HttpError, bare, coded, db_error, bad_request, not_found, conflict, internal_server_error,
  RotationRow, RotationCommitResponse, rotation_state_rotating, rotation_state_stale,
}
use zann.Rotation.Store.{
  Site, RotationDb, RotationFaults, find_row, state_is, passed, cleared, update_rows,
}
use zann.Rotation.Authorise.{authorise, master_key, or_error, decrypt_rotation_candidate}
use zann.Rotation.Start.{is_password}

-- The clock at the three places where the handler reads it.
pub record Clock : Type 0 where
  pub at_expiry : ℕ
  pub at_recovery : ℕ
  pub at_write : ℕ

-- `field.value = candidate` for the first password field in the order of the iteration.
abbrev pub set_password : Text → List (Text × FieldValue) → Option (List (Text × FieldValue))
set_password candidate [] = none
set_password candidate ((name, field) ∷ fields) =
    let rest = Option.map (λ fs. (name, field) ∷ fs) (set_password candidate fields) in
    if is_password field then some ((name, record field { value = candidate }) ∷ fields) else rest

unfoldable pub actor_snapshot : RotationFaults → Identity → RotationDb → ActorSnapshot
actor_snapshot faults identity db = record {
  email = identity.email;
  name =
      if faults.user_fails
      then none
      else elim (find_first (λ u. u.id == identity.user_id && is_none u.deleted_at) db.users) [
        | none ↦ none
        | some u ↦ u.full_name
      ];
  device_name = elim identity.device_id [
    | none ↦ none
    | some id ↦
        if faults.device_fails
        then none
        else Option.map (λ d. d.name) (find_first (λ d. d.id == id) db.devices)
  ];
}

-- What the transaction writes.
pub record CommitPlan : Type 0 where
  pub previous : Item
  pub payload_enc : Bytes
  pub checksum : Text

-- A rotation that may be committed: not aborted, and not out of its time to recover.
unfoldable pub check_state : Clock → RotationRow → Result HttpError Bytes
check_state clock row = do
  let expired = state_is rotation_state_rotating row.state && passed clock.at_expiry row.expires_at
  let label = if expired then some rotation_state_stale else row.state
  ensure (state_is rotation_state_rotating label || state_is rotation_state_stale label)
      (coded conflict "rotation_missing")
  ensure (not (passed clock.at_recovery row.recover_until)) (coded conflict "rotation_expired")
  ok_or row.candidate_enc (coded internal_server_error "rotation_missing")

module _ (site : Site) where
  -- The payload of the row with the candidate in it, encrypted.
  unfoldable pub renew_payload : Draws → Bytes → Vault → Item → Text → Result HttpError CommitPlan
  renew_payload draws smk vault item candidate = do
    vault_key ←
        or_error (decrypt_vault_key site.cipher smk vault.id vault.vault_key_enc)
          (coded internal_server_error "decrypt_failed")
    payload ←
        or_error (decrypt_payload site.cipher site.json vault_key vault.id item.id item.payload_enc)
          (coded internal_server_error "decrypt_failed")
    fields ←
        ok_or (set_password candidate payload.fields) (coded bad_request "password_field_missing")
    payload_enc ←
        or_error
          (encrypt_payload site.cipher site.json draws vault_key vault.id item.id
            (record payload { fields = fields }))
          (coded internal_server_error "encrypt_failed")
    ok (record {
      previous = item;
      payload_enc = payload_enc;
      checksum = site.blake3_hex payload_enc;
    })

module _ (faults : RotationFaults) (identity : Identity) where
  unfoldable pub history_entry : ℕ → ℕ → CommitPlan → RotationDb → ItemHistory
  history_entry history_id now plan db =
      let actor = actor_snapshot faults identity db in
      record {
        id = history_id;
        item_id = plan.previous.id;
        payload_enc = plan.previous.payload_enc;
        checksum = plan.previous.checksum;
        version = plan.previous.version;
        change_type = ChangeType.update;
        fields_changed = none;
        changed_by_user_id = identity.user_id;
        changed_by_email = actor.email;
        changed_by_name = actor.name;
        changed_by_device_id = identity.device_id;
        changed_by_device_name = actor.device_name;
        created_at = now;
      }

  -- The two statements of the transaction.
  unfoldable pub write_commit : ℕ → ℕ → CommitPlan → RotationDb → RotationDb
  write_commit history_id now plan db =
      let entry = history_entry history_id now plan db in
      let old = plan.previous in
      update_rows old.id (λ r. r.item.row_version == old.row_version)
        (λ r. record {
          item = record r.item {
            payload_enc = plan.payload_enc;
            checksum = plan.checksum;
            version = old.version + 1;
            row_version = old.row_version + 1;
            device_id = unwrap_or identity.device_id old.device_id;
            updated_at = now;
          };
          rotation = cleared none;
        })
        (record db {
          item_history =
              if any (same_version entry) db.item_history
              then db.item_history
              else entry ∷ db.item_history;
        })

module _ (site : Site) (faults : RotationFaults) (identity : Identity) (item_id : ℕ) where
  unfoldable pub plan_commit : Clock → Draws → RotationDb → Result HttpError CommitPlan
  plan_commit clock draws db = do
    (item, vault) ←
        authorise site faults identity item_id (codes "rotate_commit")
          (codes "shared/items/rotate/commit") db
    smk ← master_key site
    ensure (not faults.acquire_fails) db_error
    ensure (not faults.begin_fails) db_error
    ensure (not faults.select_fails) db_error
    row ← ok_or (find_row item.id db) (bare not_found)
    candidate_enc ← check_state clock row.rotation
    candidate ←
        or_error (decrypt_rotation_candidate site smk vault item.id candidate_enc)
          (coded internal_server_error "decrypt_failed")
    renew_payload site draws smk vault row.item candidate

  -- The writes and the answer. A failure of the history entry is only logged, but PostgreSQL then
  -- refuses the update.
  unfoldable pub conclude_commit :
      ℕ → ℕ → CommitPlan → RotationDb → Result HttpError RotationCommitResponse × RotationDb
  conclude_commit now history_id plan db =
      let db' = write_commit faults identity history_id now plan db in
      let pruned = record db' {
        item_history = prune_rows plan.previous.id site.max_versions db'.item_history;
      } in
      if faults.history_fails || (faults.write_fails || faults.commit_fails)
      then (err db_error, db)
      else (
        ok (record { status = "committed"; version = plan.previous.version + 1 }),
        if faults.prune_fails then db' else pruned,
      )

  unfoldable pub rotate_commit :
      Clock → Draws → ℕ → RotationDb → Result HttpError RotationCommitResponse × RotationDb
  rotate_commit clock draws history_id db = elim (plan_commit clock draws db) [
    | err e ↦ (err e, db)
    | ok plan ↦ conclude_commit clock.at_write history_id plan db
  ]
