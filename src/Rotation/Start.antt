-- ===== src/Rotation/Start.antt =====
-- crates/zann-server/src/domains/vaults/http/v1/shared/handlers/rotation_start.rs.
use zann.Base.{
  ℕ, ◌+◌, Bool, true, false, Option, some, Text, codes, any, Result, ok, err, ensure, ◌>>=◌, ◌>>◌,
  if◌then◌else◌,
}
use zann.Core.Structs.{Identity, Item}
use zann.Access.Vault.{is_none}
use zann.Crypto.Blob.{Bytes}
use zann.Crypto.Envelope.{Draws}
use zann.Crypto.Vault.{password, FieldValue, decrypt_vault_key, decrypt_payload}
use zann.Rotation.Types.{
  HttpError, coded, db_error, bad_request, conflict, internal_server_error,
  RotationCandidateResponse, rotation_state_rotating,
}
use zann.Rotation.Password.{Choices, generate_password}
use zann.Rotation.Store.{Site, RotationDb, RotationFaults, write_start}
use zann.Rotation.Authorise.{
  authorise, master_key, rotation_of, or_error, encrypt_rotation_candidate,
}

abbrev pub is_password : FieldValue → Bool
is_password f = elim f.kind [ password ↦ true | _ ↦ false ]

-- What the request has found before it writes.
pub record StartPlan : Type 0 where
  pub item : Item
  pub candidate : Text
  pub candidate_enc : Bytes

module _ (site : Site) (faults : RotationFaults) (identity : Identity) (item_id : ℕ) where
  unfoldable pub plan_start :
      Option Text → Choices → Draws → RotationDb → Result HttpError StartPlan
  plan_start policy choices draws db = do
    (item, vault) ←
        authorise site faults identity item_id (codes "rotate_start")
          (codes "shared/items/rotate/start") db
    smk ← master_key site
    rotation ← rotation_of site faults item_id db
    ensure (is_none rotation.state) (coded conflict "rotation_in_progress")
    vault_key ←
        or_error (decrypt_vault_key site.cipher smk vault.id vault.vault_key_enc)
          (coded internal_server_error "decrypt_failed")
    decrypted ←
        or_error (decrypt_payload site.cipher site.json vault_key vault.id item.id item.payload_enc)
          (coded internal_server_error "decrypt_failed")
    ensure (any (λ f. is_password f.1) decrypted.fields)
        (coded bad_request "password_field_missing")
    candidate ← or_error (generate_password choices policy) (coded bad_request "invalid_policy")
    candidate_enc ←
        or_error (encrypt_rotation_candidate site draws smk vault item.id candidate)
          (coded internal_server_error "encrypt_failed")
    ok (record { item = item; candidate = candidate; candidate_enc = candidate_enc })

  -- The write, and the answer.
  unfoldable pub conclude_start :
      ℕ → StartPlan → RotationDb → Result HttpError RotationCandidateResponse × RotationDb
  conclude_start now plan db =
      let (written, db') = write_start site identity plan.item.id now plan.candidate_enc db in
      if faults.write_fails
      then (err db_error, db)
      else if written
      then (
        ok (record {
          state = rotation_state_rotating;
          candidate = plan.candidate;
          expires_at = some (site.ext.rfc3339 (now + site.lock_ttl));
          recover_until = some (site.ext.rfc3339 (now + site.lock_ttl + site.stale_retention));
        }),
        db',
      )
      else (err (coded conflict "rotation_in_progress"), db')

  unfoldable pub rotate_start :
      Option Text
      → Choices
      → Draws
      → ℕ
      → RotationDb
      → Result HttpError RotationCandidateResponse × RotationDb
  rotate_start policy choices draws now db = elim (plan_start policy choices draws db) [
    | err e ↦ (err e, db)
    | ok plan ↦ conclude_start now plan db
  ]
