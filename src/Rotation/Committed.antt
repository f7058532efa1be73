-- ===== src/Rotation/Committed.antt =====
-- crates/zann-server/src/domains/vaults/http/v1/shared/handlers/rotation_commit.rs: what a commit
-- that is answered as a success has done to the item.
use mathlib.Core.List.{Perm}
use mathlib.Core.Path.{subst}
use zann.Base.{
  ℕ, ◌+◌, ◌≡◌, refl, sym, ◌∙◌, ap, false, none, some, Result-cases, inl, inr, List, Text, codes, ok,
  find_first, arith,
}
use zann.Core.Structs.{Identity, Vault, Item}
use zann.Crypto.Blob.{Bytes}
use zann.Crypto.Envelope.{IsAead, Draws}
use zann.Crypto.Vault.{EncryptedPayload, FieldValue, decrypt_vault_key, decrypt_payload}
use zann.Crypto.RoundTrip.{IsDrawn}
use zann.Rotation.Types.{RotationCommitResponse}
use zann.Rotation.Store.{
  Site, ItemRow, RotationDb, RotationFaults, is_row, find_row, passed, cleared,
}
use zann.Rotation.Authorise.{decrypt_rotation_candidate}
use zann.Rotation.Commit.{
  Clock, CommitPlan, plan_commit, write_commit, conclude_commit, rotate_commit,
}
use zann.Rotation.Placed.{Placed, set_password-Placed}
use zann.Rotation.Inversion.{Authorised, authorise-Authorised, find_row-id}
use zann.Rotation.Written.{
  encrypt_payload-Reread, rows_after, check_state-in_time, check_state-held, renewed_row,
  write_commit-find,
}
use zann.Rotation.Outcome.{plan_commit-Grounds, renew_payload-Renewed, IsPayloadJson}

-- A committed rotation: an authorised identity, a candidate of a rotation that was still to be
-- recovered, and the item with the candidate in the place of its password.
pub record Committed (site : Site) (identity : Identity) (item_id : ℕ) (clock : Clock)
    (db db' : RotationDb) (version : ℕ) : Type 0 where
  pub item : Item
  pub vault : Vault
  pub authorised :
      Authorised site identity item_id
        (codes "rotate_commit")
        (codes "shared/items/rotate/commit")
        db
        item
        vault
  pub row : ItemRow
  pub located : find_row item_id db ≡ some row
  pub in_time : passed clock.at_recovery row.rotation.recover_until ≡ false
  pub row' : ItemRow
  pub stored : find_row item_id db' ≡ some row'
  pub settled : row'.rotation ≡ cleared none
  pub next : (row'.item.version ≡ row.item.version + 1) × (version ≡ row.item.version + 1)
  pub smk : Bytes
  pub vault_key : Bytes
  pub candidate_enc : Bytes
  pub payload : EncryptedPayload
  pub candidate : Text
  pub fields : List (Text × FieldValue)
  pub keyed :
      (site.server_master_key ≡ some smk)
      × (decrypt_vault_key site.cipher smk vault.id vault.vault_key_enc ≡ ok vault_key)
  pub held : row.rotation.candidate_enc ≡ some candidate_enc
  pub opened : decrypt_rotation_candidate site smk vault item_id candidate_enc ≡ ok candidate
  pub before :
      decrypt_payload site.cipher site.json vault_key vault.id item_id row.item.payload_enc
      ≡ ok payload
  pub placed : Placed candidate payload.fields fields
  pub payload' : EncryptedPayload
  pub after :
      decrypt_payload site.cipher site.json vault_key vault.id item_id row'.item.payload_enc
      ≡ ok payload'
  pub rotated : Perm payload'.fields fields

commit-Committed :
    (site : Site) (faults : RotationFaults) (identity : Identity) (item_id : ℕ) (clock : Clock)
    (draws : Draws) (history_id : ℕ) (db db' : RotationDb) (plan : CommitPlan)
    (r : RotationCommitResponse)
    → IsAead site.cipher
    → IsDrawn draws
    → IsPayloadJson site.json
    → plan_commit site faults identity item_id clock draws db ≡ ok plan
    → conclude_commit site faults identity item_id clock.at_write history_id plan db ≡ (ok r, db')
    → Committed site identity item_id clock db db' r.version
commit-Committed site faults identity item_id clock draws history_id db db' plan r aead drawn json p
      c =
    let g = plan_commit-Grounds site faults identity item_id clock draws db plan p in
    let a = authorise-Authorised site faults identity item_id _ _ db g.item g.vault g.authorised in
    let w = renew_payload-Renewed site draws g.smk g.vault g.row.item g.candidate plan g.renewed in
    let back =
      encrypt_payload-Reread site draws w.vault_key g.vault.id g.row.item.id _ _ aead drawn json
        w.sealed in
    let rows = rows_after site faults identity item_id clock.at_write history_id plan db db' r c in
    let item_own : g.item.id ≡ item_id =
      sym (ap (λ (o : Item). o.id) a.same) ∙ find_row-id item_id db.rows a.row a.found in
    let own : g.row.item.id ≡ item_id = find_row-id g.item.id db.rows g.row g.located ∙ item_own in
    let located : find_row item_id db ≡ some g.row =
      subst (λ i. find_row i db ≡ some g.row) item_own g.located in
    let stored =
      write_commit-find faults identity clock.at_write history_id plan db g.row w.previous
        (subst (λ i. find_row i db ≡ some g.row) (sym own) located) in
    record {
      item = g.item;
      vault = g.vault;
      authorised = a;
      row = g.row;
      located = located;
      in_time = check_state-in_time clock g.row.rotation g.candidate_enc g.checked;
      row' = renewed_row identity clock.at_write plan g.row;
      stored =
          ap (find_first (is_row item_id)) rows.0
          ∙ subst
              (λ i.
                find_first (is_row i)
                  (write_commit faults identity history_id clock.at_write plan db).rows
                ≡ some (renewed_row identity clock.at_write plan g.row))
              own stored;
      settled = refl;
      next = (
        ap (λ (o : Item). o.version + 1) w.previous,
        rows.1 ∙ ap (λ (o : Item). o.version + 1) w.previous,
      );
      smk = g.smk;
      vault_key = w.vault_key;
      candidate_enc = g.candidate_enc;
      keyed = (g.keyed, w.keyed);
      held = check_state-held clock g.row.rotation g.candidate_enc g.checked;
      opened =
          subst
            (λ i. decrypt_rotation_candidate site g.smk g.vault i g.candidate_enc ≡ ok g.candidate)
            item_own g.opened;
      payload = w.payload;
      candidate = g.candidate;
      fields = w.fields;
      before =
          subst
            (λ i.
              decrypt_payload site.cipher site.json w.vault_key g.vault.id i g.row.item.payload_enc
              ≡ ok w.payload)
            own w.before;
      placed = set_password-Placed g.candidate w.payload.fields w.fields w.placed;
      payload' = back.back;
      after =
          subst
            (λ i.
              decrypt_payload site.cipher site.json w.vault_key g.vault.id i plan.payload_enc
              ≡ ok back.back)
            own back.read;
      rotated = back.fields;
    }

-- A commit that is answered with a version comes from an identity that may commit rotations of the
-- item, and within the time to recover. The item then has that version, one above its last, no
-- rotation is left, and its payload decrypts to the fields it had before, in some order, where the first
-- password field has the candidate of the rotation as its value.
pub rotate_commit-Committed :
    (site : Site) (faults : RotationFaults) (identity : Identity) (item_id : ℕ) (clock : Clock)
    (draws : Draws) (history_id : ℕ) (db db' : RotationDb) (r : RotationCommitResponse)
    → IsAead site.cipher
    → IsDrawn draws
    → IsPayloadJson site.json
    → rotate_commit site faults identity item_id clock draws history_id db ≡ (ok r, db')
    → Committed site identity item_id clock db db' r.version
unfolding rotate_commit
rotate_commit-Committed site faults identity item_id clock draws history_id db db' r aead drawn json
      e =
    elim (Result-cases (plan_commit site faults identity item_id clock draws db)) [
      | inr (x, p) ↦ absurd (ground (arith, e, p))
      | inl (plan, p) ↦
          commit-Committed site faults identity item_id clock draws history_id db db' plan r aead
            drawn json p (rw (p, rotate_commit) at e)
    ]
