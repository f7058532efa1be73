-- ===== src/Rotation/Read.antt =====
-- crates/zann-server/src/domains/vaults/http/v1/shared/handlers/rotation_status.rs: the handlers that
-- read a rotation, and in doing so write it as stale when it has run out of time.
use mathlib.Core.Option
use zann.Base.{ℕ, not, Text, codes, Result, ok, err, ok_or, ensure, ◌>>=◌, ◌>>◌}
use zann.Core.Structs.{Identity, Vault, Item}
use zann.Rotation.Types.{
  HttpError, coded, conflict, internal_server_error, RotationRow, RotationStatusResponse,
  RotationCandidateResponse, rotation_state_rotating, rotation_state_stale,
}
use zann.Rotation.Store.{
  Site, RotationDb, RotationFaults, state_is, passed, normalize_rotation_state,
  rotation_state_label,
}
use zann.Rotation.Authorise.{
  authorise, master_key, rotation_of, or_db_error, or_error, decrypt_rotation_candidate,
}

module _ (site : Site) (faults : RotationFaults) (identity : Identity) (item_id : ℕ) where
  -- The item and the vault, and the row as it was fetched.
  unfoldable pub load : Text → Text → RotationDb → Result HttpError ((Item × Vault) × RotationRow)
  load action resource db = do
    (item, vault) ← authorise site faults identity item_id action resource db
    row ← rotation_of site faults item.id db
    ok ((item, vault), row)

  -- Loads, brings the state up to date at the time `now`, and answers from the row.
  unfoldable pub with_rotation :
      {A : Type 0}
      → Text
      → Text
      → ℕ
      → (Item → Vault → RotationRow → Result HttpError A)
      → RotationDb
      → Result HttpError A × RotationDb
  with_rotation action resource now answer db = elim (load action resource db) [
    | err e ↦ (err e, db)
    | ok found ↦
        let (row, db') = normalize_rotation_state faults now found.0.0.id found.1 db in
        ((or_db_error row >>= λ row. answer found.0.0 found.0.1 row), db')
  ]

  unfoldable pub status_answer : RotationRow → Result HttpError RotationStatusResponse
  status_answer row = ok (record {
    state = rotation_state_label row.state;
    started_at = Option.map site.ext.rfc3339 row.started_at;
    started_by = Option.map site.ext.uuid_text row.started_by;
    expires_at = Option.map site.ext.rfc3339 row.expires_at;
    recover_until = Option.map site.ext.rfc3339 row.recover_until;
    aborted_reason = row.aborted_reason;
  })

  unfoldable pub rotate_status :
      ℕ → RotationDb → Result HttpError RotationStatusResponse × RotationDb
  rotate_status now db =
      with_rotation (codes "read") (codes "shared/items/rotate/status") now
        (λ item vault row. status_answer row) db

  -- The candidate of the row, in clear.
  unfoldable pub candidate_answer :
      Text → Item → Vault → RotationRow → Result HttpError RotationCandidateResponse
  candidate_answer state item vault row = do
    candidate_enc ← ok_or row.candidate_enc (coded internal_server_error "rotation_missing")
    smk ← master_key site
    candidate ←
        or_error (decrypt_rotation_candidate site smk vault item.id candidate_enc)
          (coded internal_server_error "decrypt_failed")
    ok (record {
      state = state;
      candidate = candidate;
      expires_at = Option.map site.ext.rfc3339 row.expires_at;
      recover_until = Option.map site.ext.rfc3339 row.recover_until;
    })

  unfoldable pub active_answer :
      Item → Vault → RotationRow → Result HttpError RotationCandidateResponse
  active_answer item vault row = do
    ensure (state_is rotation_state_rotating row.state) (coded conflict "rotation_not_active")
    candidate_answer rotation_state_rotating item vault row

  unfoldable pub rotate_candidate :
      ℕ → RotationDb → Result HttpError RotationCandidateResponse × RotationDb
  rotate_candidate now db =
      with_rotation (codes "read_candidate") (codes "shared/items/rotate/candidate") now
        active_answer db

  -- `later` is the clock when the time to recover is checked.
  unfoldable pub stale_answer :
      ℕ → Item → Vault → RotationRow → Result HttpError RotationCandidateResponse
  stale_answer later item vault row = do
    ensure (not (state_is rotation_state_rotating row.state)) (coded conflict "rotation_active")
    ensure (state_is rotation_state_stale row.state) (coded conflict "rotation_missing")
    ensure (not (passed later row.recover_until)) (coded conflict "rotation_expired")
    candidate_answer rotation_state_stale item vault row

  unfoldable pub rotate_recover :
      ℕ → ℕ → RotationDb → Result HttpError RotationCandidateResponse × RotationDb
  rotate_recover now later db =
      with_rotation (codes "recover") (codes "shared/items/rotate/recover") now (stale_answer later)
        db
