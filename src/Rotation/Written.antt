-- ===== src/Rotation/Written.antt =====
-- crates/zann-server/src/domains/vaults/http/v1/shared/handlers/rotation_commit.rs: the checks and the
-- writes of a commit, one by one.
use mathlib.Core.List.{Perm}
use mathlib.Core.Path.{subst}
use zann.Base.{
  map, ◌&&◌, unwrap_or, ℕ, ◌+◌, ◌≡◌, refl, sym, false, Bool-cases, none, some, Option-cases, inl,
  inr, ok, find_first, arith, ◌==◌, ◌||◌, if◌then◌else◌,
}
use zann.Core.Structs.{Identity, Item}
use zann.Crypto.Blob.{Bytes}
use zann.Crypto.Envelope.{IsAead, Draws}
use zann.Crypto.Vault.{EncryptedPayload, decrypt_payload, encrypt_payload}
use zann.Crypto.RoundTrip.{IsDrawn, payload_round_trip}
use zann.Rotation.Types.{RotationCommitResponse}
use zann.Rotation.Store.{
  Site, ItemRow, RotationDb, RotationFaults, is_row, find_row, passed, cleared,
}
use zann.Rotation.Commit.{Clock, CommitPlan, check_state, write_commit, conclude_commit}
use zann.Rotation.Outcome.{IsPayloadJson, find-update}

-- An encrypted payload is read back.
pub record Reread (site : Site) (key : Bytes) (vault_id item_id : ℕ) (enc : Bytes)
    (payload : EncryptedPayload) : Type 0 where
  pub back : EncryptedPayload
  pub read : decrypt_payload site.cipher site.json key vault_id item_id enc ≡ ok back
  pub fields : Perm back.fields payload.fields

pub encrypt_payload-Reread :
    (site : Site) (draws : Draws) (key : Bytes) (vault_id item_id : ℕ) (payload : EncryptedPayload)
    (enc : Bytes)
    → IsAead site.cipher
    → IsDrawn draws
    → IsPayloadJson site.json
    → encrypt_payload site.cipher site.json draws key vault_id item_id payload ≡ ok enc
    → Reread site key vault_id item_id enc payload
unfolding encrypt_payload decrypt_payload
encrypt_payload-Reread site draws key v i payload enc aead drawn json e =
    elim (Option-cases (site.json.to_vec payload)) [
      | inl n ↦ absurd (ground (arith, e, n))
      | inr (bytes, b) ↦
          let back = json.reads payload bytes b in
          let opened =
            payload_round_trip site.cipher draws key v i bytes enc aead drawn
              (ground (arith, e, b)) in
          record { back = back.0; read = rw (opened, back.1.0) refl; fields = back.1.1.1 }
    ]

pub rows_after :
    (site : Site) (faults : RotationFaults) (identity : Identity) (item_id now history_id : ℕ)
    (plan : CommitPlan) (db db' : RotationDb) (r : RotationCommitResponse)
    → conclude_commit site faults identity item_id now history_id plan db ≡ (ok r, db')
    → (db'.rows ≡ (write_commit faults identity history_id now plan db).rows)
      × (r.version ≡ plan.previous.version + 1)
unfolding conclude_commit
rows_after site faults identity item_id now history_id plan db db' r e =
    elim (Bool-cases (faults.history_fails || (faults.write_fails || faults.commit_fails))) [
      | inl b ↦ absurd (ground (arith, e, b))
      | inr b ↦ elim (Bool-cases faults.prune_fails) [
        | inl p ↦ (ground (arith, e, b, p), ground (arith, e, b, p))
        | inr p ↦ (ground (arith, e, b, p), ground (arith, e, b, p))
      ]
    ]

pub check_state-in_time :
    (clock : Clock) (row : _) (enc : Bytes)
    → check_state clock row ≡ ok enc
    → passed clock.at_recovery row.recover_until ≡ false
unfolding check_state
check_state-in_time clock row enc e = ground (arith, e)

pub check_state-held :
    (clock : Clock) (row : _) (enc : Bytes)
    → check_state clock row ≡ ok enc
    → row.candidate_enc ≡ some enc
unfolding check_state
check_state-held clock row enc e = ground (arith, e)

-- The row of the item after the two statements.
abbrev pub renewed_row : Identity → ℕ → CommitPlan → ItemRow → ItemRow
renewed_row identity now plan r = record {
  item = record r.item {
    payload_enc = plan.payload_enc;
    checksum = plan.checksum;
    version = plan.previous.version + 1;
    row_version = plan.previous.row_version + 1;
    device_id = unwrap_or identity.device_id plan.previous.device_id;
    updated_at = now;
  };
  rotation = cleared none;
}

pub write_commit-find :
    (faults : RotationFaults) (identity : Identity) (now history_id : ℕ) (plan : CommitPlan)
    (db : RotationDb) (row : ItemRow)
    → plan.previous ≡ row.item
    → find_row row.item.id db ≡ some row
    → find_row row.item.id (write_commit faults identity history_id now plan db)
      ≡ some (renewed_row identity now plan row)
unfolding write_commit
write_commit-find faults identity now history_id plan db row same found =
    subst
      (λ (old : Item).
        find_first (is_row row.item.id) (
          map
            (λ r.
              if is_row old.id r && r.item.row_version == old.row_version
              then renewed_row identity now plan r
              else r)
            db.rows)
        ≡ some (renewed_row identity now plan row))
      (sym same)
      (find-update row.item.id (λ r. r.item.row_version == row.item.row_version)
        (renewed_row identity now plan) db.rows row (λ r. refl) found (ground arith))
