-- ===== src/Rotation/Outcome.antt =====
-- crates/zann-server/src/domains/vaults/http/v1/shared/handlers/rotation_commit.rs: what a committed
-- rotation has done.
use zann.Base.{
  map, ◌&&◌, ap, ℕ, ◌≡◌, refl, ◌∙◌, Bool, true, Bool-cases, some, Option-cases, Result-cases, inl,
  inr, List, [], ◌∷◌, Text, codes, ok, find_first, arith, if◌then◌else◌,
}
use mathlib.Core.List.{Perm}
use zann.Core.Structs.{Identity, Vault, Item}
use zann.Crypto.Blob.{Bytes}
use zann.Crypto.Envelope.{Draws}
use zann.Crypto.Vault.{
  EncryptedPayload, FieldValue, PayloadJson, decrypt_vault_key, decrypt_payload, encrypt_payload,
}
use zann.Rotation.Store.{Site, ItemRow, RotationDb, RotationFaults, is_row, find_row}
use zann.Rotation.Authorise.{authorise, master_key, decrypt_rotation_candidate}
use zann.Rotation.Commit.{Clock, CommitPlan, check_state, set_password, renew_payload, plan_commit}

-- What a plan to commit rests on.
pub record Grounds (site : Site) (faults : RotationFaults) (identity : Identity) (item_id : ℕ)
    (clock : Clock) (draws : Draws) (db : RotationDb) (plan : CommitPlan) : Type 0 where
  pub item : Item
  pub vault : Vault
  pub smk : Bytes
  pub row : ItemRow
  pub candidate_enc : Bytes
  pub candidate : Text
  pub keyed : site.server_master_key ≡ some smk
  pub authorised :
      authorise site faults identity item_id
        (codes "rotate_commit")
        (codes "shared/items/rotate/commit")
        db
      ≡ ok (item, vault)
  pub located : find_row item.id db ≡ some row
  pub checked : check_state clock row.rotation ≡ ok candidate_enc
  pub opened : decrypt_rotation_candidate site smk vault item.id candidate_enc ≡ ok candidate
  pub renewed : renew_payload site draws smk vault row.item candidate ≡ ok plan

pub plan_commit-Grounds :
    (site : Site) (faults : RotationFaults) (identity : Identity) (item_id : ℕ) (clock : Clock)
    (draws : Draws) (db : RotationDb) (plan : CommitPlan)
    → plan_commit site faults identity item_id clock draws db ≡ ok plan
    → Grounds site faults identity item_id clock draws db plan
unfolding plan_commit master_key
plan_commit-Grounds site faults identity item_id clock draws db plan e =
    elim (Result-cases (
      authorise site faults identity item_id (codes "rotate_commit")
        (codes "shared/items/rotate/commit") db)) [
          | inr (x, a) ↦ absurd (ground (arith, e, a))
          | inl ((item, vault), a) ↦ elim (Option-cases site.server_master_key) [
            | inl m ↦ absurd (ground (arith, e, a, m))
            | inr (smk, m) ↦ elim (Option-cases (find_row item.id db)) [
              | inl n ↦ absurd (ground (arith, e, a, m, n))
              | inr (row, r) ↦ elim (Result-cases (check_state clock row.rotation)) [
                | inr (x, c) ↦ absurd (ground (arith, e, a, m, r, c))
                | inl (enc, c) ↦
                    elim (Result-cases (decrypt_rotation_candidate site smk vault item.id enc)) [
                      | inr (x, d) ↦ absurd (ground (arith, e, a, m, r, c, d))
                      | inl (candidate, d) ↦ record {
                        item = item;
                        vault = vault;
                        smk = smk;
                        row = row;
                        candidate_enc = enc;
                        candidate = candidate;
                        keyed = m;
                        authorised = a;
                        located = r;
                        checked = c;
                        opened = d;
                        renewed = ground (arith, e, a, m, r, c, d);
                      }
                    ]
              ]
            ]
          ]
        ]

-- What serde_json promises of a payload: it comes back with the same fields, in whatever order the
-- new hash map iterates over them.
pub record IsPayloadJson (json : PayloadJson) : Type 0 where
  pub reads :
      (payload : EncryptedPayload) (bytes : Bytes)
      → json.to_vec payload ≡ some bytes
      → (back : EncryptedPayload) × ((json.from_slice bytes ≡ some back)
          × ((back.type_id ≡ payload.type_id) × Perm back.fields payload.fields))

pub record Renewed (site : Site) (draws : Draws) (smk : Bytes) (vault : Vault) (old : Item)
    (candidate : Text) (plan : CommitPlan) : Type 0 where
  pub vault_key : Bytes
  pub payload : EncryptedPayload
  pub fields : List (Text × FieldValue)
  pub keyed : decrypt_vault_key site.cipher smk vault.id vault.vault_key_enc ≡ ok vault_key
  pub before :
      decrypt_payload site.cipher site.json vault_key vault.id old.id old.payload_enc ≡ ok payload
  pub placed : set_password candidate payload.fields ≡ some fields
  pub sealed :
      encrypt_payload site.cipher site.json draws vault_key vault.id old.id
        (record payload { fields = fields })
      ≡ ok plan.payload_enc
  pub previous : plan.previous ≡ old

pub renew_payload-Renewed :
    (site : Site) (draws : Draws) (smk : Bytes) (vault : Vault) (old : Item) (candidate : Text)
    (plan : CommitPlan)
    → renew_payload site draws smk vault old candidate ≡ ok plan
    → Renewed site draws smk vault old candidate plan
unfolding renew_payload
renew_payload-Renewed site draws smk vault old candidate plan e =
    elim (Result-cases (decrypt_vault_key site.cipher smk vault.id vault.vault_key_enc)) [
      | inr (x, k) ↦ absurd (ground (arith, e, k))
      | inl (key, k) ↦
          elim (Result-cases
            (decrypt_payload site.cipher site.json key vault.id old.id old.payload_enc)) [
              | inr (x, p) ↦ absurd (ground (arith, e, k, p))
              | inl (payload, p) ↦ elim (Option-cases (set_password candidate payload.fields)) [
                | inl f ↦ absurd (ground (arith, e, k, p, f))
                | inr (fields, f) ↦
                    elim (Result-cases (
                      encrypt_payload site.cipher site.json draws key vault.id old.id
                        (record payload { fields = fields }))) [
                          | inr (x, s) ↦ absurd (ground (arith, e, k, p, f, s))
                          | inl (enc, s) ↦ record {
                            vault_key = key;
                            payload = payload;
                            fields = fields;
                            keyed = k;
                            before = p;
                            placed = f;
                            sealed = s ∙ ground (arith, e, k, p, f, s);
                            previous = ground (arith, e, k, p, f, s);
                          }
                        ]
              ]
            ]
    ]

pub find-update :
    (id : ℕ) (test : ItemRow → Bool) (f : ItemRow → ItemRow) (rows : List ItemRow) (row : ItemRow)
    → ((r : ItemRow) → (f r).item.id ≡ r.item.id)
    → find_first (is_row id) rows ≡ some row
    → test row ≡ true
    → find_first (is_row id) (map (λ r. if is_row id r && test r then f r else r) rows)
      ≡ some (f row)
find-update id test f [] row same e t = cc
find-update id test f (r ∷ rows) row same e t = elim (Bool-cases (is_row id r)) [
  | inl b ↦
      let here : r ≡ row = ground (arith, b, e) in
      let tested : test r ≡ true = ap test here ∙ t in
      let kept : is_row id (f r) ≡ true = rw (same r) b in rw (b, tested, kept, here) refl
  | inr b ↦
      let rest : find_first (is_row id) rows ≡ some row = ground (arith, b, e) in
      rw (b, b) (find-update id test f rows row same rest t)
]
