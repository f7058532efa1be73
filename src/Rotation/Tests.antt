-- ===== src/Rotation/Tests.antt =====
-- Rotations on the small server of the fixtures, and the theorems about them at its states.
use zann.Base.{
  ℕ, ◌≡◌, refl, true, false, none, some, List, [], ◌∷◌, Option, Text, codes, map, inl, inr, arith,
  is_ok, ok, err, reverse, length, all, has_char, text_eq, false,
}
use mathlib.Core.List.{reverse_perm}
use zann.Rotation.Strong.{IsStrong, generate_password-IsStrong}
use zann.Crypto.Fixtures.{tagging-IsAead, draws_one, draws_one-IsDrawn}
use zann.Sync.Fixtures.{alice}
use zann.Rotation.Types.{RotationCommitResponse}
use zann.Rotation.Password.{Choices, charset, generate_password}
use zann.Rotation.Store.{RotationDb, write_stale, prune_rotation_candidates}
use zann.Rotation.Start.{rotate_start}
use zann.Rotation.Read.{rotate_recover}
use zann.Rotation.Commit.{rotate_commit}
use zann.Rotation.Steps.{AllRotations, Steps, step, done, stale, clean, Steps-AllRotations}
use zann.Rotation.Committed.{Committed, rotate_commit-Committed}
use zann.Rotation.Machine.{commit_request, perform, Tracked}
use zann.Rotation.Moves.{perform-Tracked}
use zann.Rotation.Expired.{expired_rotation_refused}
use zann.Rotation.Fixtures.{
  rotation_site, all_well, password_row, rotation_db, clock_at, tiny_json-IsPayloadJson,
}

abbrev stale_then_clean : RotationDb
stale_then_clean = prune_rotation_candidates 300 (write_stale 20 rotation_db)

runs_stale_then_clean : Steps rotation_site rotation_db stale_then_clean
runs_stale_then_clean =
    step rotation_db (write_stale 20 rotation_db) stale_then_clean (stale 20 rotation_db) (
      step (write_stale 20 rotation_db) stale_then_clean stale_then_clean
        (clean 300 (write_stale 20 rotation_db)) (done stale_then_clean))

rotation_db-AllRotations : AllRotations rotation_db
rotation_db-AllRotations = (
  inr (record {
    candidate = _;
    expiry = 150;
    recovery = 250;
    state = inl refl;
    candidate_enc = refl;
    expires_at = refl;
    recover_until = refl;
    in_order = omega arith;
  }),
  tt,
)

Steps-AllRotations_example : AllRotations stale_then_clean
Steps-AllRotations_example =
    Steps-AllRotations rotation_site rotation_db stale_then_clean runs_stale_then_clean
      rotation_db-AllRotations

perform-Tracked_example : Tracked 20 (commit_request (clock_at 200) draws_one 77) rotation_db (
    perform rotation_site all_well alice 20
      (commit_request (clock_at 200) draws_one 77)
      rotation_db)
perform-Tracked_example =
    perform-Tracked rotation_site all_well alice 20 rotation_db
      (commit_request (clock_at 200) draws_one 77)

no_choices : Choices
no_choices = record { index = λ i. 0; shuffle = λ t. t }

expired_rotation_refused_example :
    (is_ok
        (rotate_start rotation_site all_well alice 20 none no_choices draws_one 260 rotation_db).0
      ≡ false)
    × ((rotate_start rotation_site all_well alice 20 none no_choices draws_one 260 rotation_db).1
        ≡ rotation_db)
    × (is_ok
          (rotate_commit rotation_site all_well alice 20 (clock_at 260) draws_one 77 rotation_db).0
        ≡ false)
    × ((rotate_commit rotation_site all_well alice 20 (clock_at 260) draws_one 77 rotation_db).1
        ≡ rotation_db)
    × (is_ok (rotate_recover rotation_site all_well alice 20 260 260 rotation_db).0 ≡ false)
expired_rotation_refused_example =
    expired_rotation_refused rotation_site all_well alice 20 260 rotation_db none no_choices
      draws_one (clock_at 260) 77 260 260
      (record {
        row = password_row;
        found = refl;
        label = _;
        state = refl;
        recovery = 250;
        recover_until = refl;
        over = omega arith;
      })
      refl

-- Within the time to recover the commit goes through.
abbrev committed_db : RotationDb
committed_db =
    (rotate_commit rotation_site all_well alice 20 (clock_at 200) draws_one 77 rotation_db).1

abbrev committed_answer : RotationCommitResponse
committed_answer = record { status = "committed"; version = 4 }

commit_runs :
    rotate_commit rotation_site all_well alice 20 (clock_at 200) draws_one 77 rotation_db
    ≡ (ok committed_answer, committed_db)
unfolding rotate_commit zann.Rotation.Commit.plan_commit zann.Rotation.Authorise.authorise
    zann.Access.Vault.get_vault zann.Access.Vault.is_shared_server_vault zann.Access.Vault.access
    zann.Access.Policy.evaluate zann.Access.Policy.from_rules zann.Access.Role.role_permits
    zann.Base.text_eq zann.Rotation.Authorise.master_key zann.Rotation.Commit.check_state
    zann.Rotation.Authorise.decrypt_rotation_candidate zann.Crypto.Vault.decrypt_vault_key
    zann.Crypto.Blob.from_bytes zann.Crypto.Blob.to_bytes zann.Crypto.Envelope.decrypt_blob
    zann.Crypto.Envelope.unwrap_dek zann.Access.Policy.evaluate_rules zann.Access.Vault.get_member
    zann.Access.Vault.vault_role_allows zann.Base.Utf8.decode_utf8 zann.Base.from_utf8
    zann.Crypto.Blob.parse_v1_envelope zann.Crypto.Envelope.decrypt_v1_envelope
    zann.Crypto.Envelope.encrypt_blob zann.Crypto.Envelope.v1_header_bytes
    zann.Crypto.Envelope.v1_payload_aad zann.Crypto.Envelope.wrap_dek zann.Crypto.Vault.as_bytes
    zann.Crypto.Vault.decrypt_payload zann.Crypto.Vault.decrypt_payload_bytes
    zann.Crypto.Vault.decrypt_rotation_candidate zann.Crypto.Vault.encrypt_payload
    zann.Crypto.Vault.encrypt_payload_bytes zann.Crypto.Vault.payload_aad
    zann.Crypto.Vault.rotation_candidate_aad zann.Crypto.Vault.vault_key_aad
    zann.Rotation.Commit.actor_snapshot zann.Rotation.Commit.conclude_commit
    zann.Rotation.Commit.history_entry zann.Rotation.Commit.renew_payload
    zann.Rotation.Commit.write_commit
commit_runs = refl

rotate_commit-Committed_example :
    Committed rotation_site alice 20 (clock_at 200) rotation_db committed_db 4
rotate_commit-Committed_example =
    rotate_commit-Committed rotation_site all_well alice 20 (clock_at 200) draws_one 77 rotation_db
      committed_db committed_answer tagging-IsAead draws_one-IsDrawn tiny_json-IsPayloadJson
      commit_runs

abbrev counting : Choices
counting = record { index = λ i. i; shuffle = reverse }

generate_password-IsStrong_example :
    ((password : Text) × ((generate_password counting none ≡ ok password)
        × (generate_password counting (some (codes "default")) ≡ ok password)
        × IsStrong password))
    × ((password : Text) × ((generate_password counting (some (codes "alnum")) ≡ ok password)
          × (length password ≡ 24)
          × (all (λ c. has_char c charset) password ≡ true)))
    × (generate_password counting (some (codes "hex")) ≡ err "invalid_policy")
unfolding text_eq
generate_password-IsStrong_example =
    generate_password-IsStrong counting (codes "hex") reverse_perm refl refl
