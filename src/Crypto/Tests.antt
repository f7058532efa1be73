-- ===== src/Crypto/Tests.antt =====
-- The theorems about encryption at the cipher of the fixtures.
use zann.Base.{ℕ, ◌≡◌, ◌≢◌, ◌↔◌, refl, [], ◌∷◌, All, arith, ok, text_eq}
use zann.Crypto.Pieces.{IsByte}
use zann.Crypto.Canonical.{to_bytes-from_bytes}
use zann.Crypto.Blob.{Bytes, EncryptedBlob, to_bytes, from_bytes, parse_v1_envelope}
use zann.Crypto.Envelope.{wrap_dek, encrypt_blob}
use zann.Crypto.Vault.{
  encrypt_payload_bytes, decrypt_payload_bytes, encrypt_rotation_candidate,
  decrypt_rotation_candidate, encrypt_vault_key, decrypt_vault_key, payload_aad,
  rotation_candidate_aad, vault_key_aad,
}
use zann.Crypto.Parsing.{from_bytes-to_bytes}
use zann.Crypto.RoundTrip.{decrypt-encrypt}
use zann.Crypto.Fixtures.{
  eight, tag, tagging, tagging-IsAead, draws_one, draws_one-IsDrawn, a_key, sealed,
}
use zann.Crypto.Binding.{aad_binding}

abbrev small_blob : EncryptedBlob
small_blob = record {
  kek_id = 258;
  algo_dek = 1;
  algo_kek = 1;
  enc_dek = eight;
  nonce = tag;
  ciphertext = 9 ∷ [];
}

from_bytes-to_bytes_example : from_bytes (to_bytes small_blob) ≡ ok small_blob
from_bytes-to_bytes_example =
    from_bytes-to_bytes small_blob
      (record { kek_id = omega arith; enc_dek = omega arith; nonce = omega arith })

abbrev encoded : Bytes
encoded =
    90
    ∷ (65
        ∷ (78
            ∷ (1
                ∷ (2
                    ∷ (1
                        ∷ (0
                            ∷ (0
                                ∷ (1
                                    ∷ (1
                                        ∷ (1
                                            ∷ (0
                                                ∷ (0
                                                    ∷ (0
                                                        ∷ (2
                                                            ∷ (0
                                                            ∷ (0
                                                            ∷ (0
                                                            ∷ (7
                                                            ∷ (8
                                                            ∷ (255 ∷ (9 ∷ [])))))))))))))))))))))

abbrev decoded : EncryptedBlob
decoded = record {
  kek_id = 258;
  algo_dek = 1;
  algo_kek = 1;
  enc_dek = 7 ∷ [];
  nonce = 8 ∷ (255 ∷ []);
  ciphertext = 9 ∷ [];
}

encoded-IsByte : All IsByte encoded
encoded-IsByte = grind arith

encoded_parses : from_bytes encoded ≡ ok decoded
unfolding from_bytes parse_v1_envelope text_eq
encoded_parses = refl

to_bytes-from_bytes_example : to_bytes decoded ≡ encoded
to_bytes-from_bytes_example = to_bytes-from_bytes encoded decoded encoded-IsByte encoded_parses

truncated_blob_fails : from_bytes (90 ∷ (65 ∷ (78 ∷ (1 ∷ [])))) ≢ ok small_blob
unfolding from_bytes parse_v1_envelope text_eq
truncated_blob_fails e = cc

payload_runs : encrypt_payload_bytes tagging draws_one a_key 3 4 eight ≡ ok (sealed eight)
unfolding encrypt_payload_bytes encrypt_blob wrap_dek
payload_runs = refl

candidate_runs : encrypt_rotation_candidate tagging draws_one a_key 3 4 tag ≡ ok (sealed tag)
unfolding encrypt_rotation_candidate encrypt_blob wrap_dek
candidate_runs = refl

vault_key_runs : encrypt_vault_key tagging draws_one a_key 3 a_key ≡ ok (sealed a_key)
unfolding encrypt_vault_key encrypt_blob wrap_dek
vault_key_runs = refl

decrypt-encrypt_example :
    (decrypt_payload_bytes tagging a_key 3 4 (sealed eight) ≡ ok eight)
    × (decrypt_rotation_candidate tagging a_key 3 4 (sealed tag) ≡ ok tag)
    × (decrypt_vault_key tagging a_key 3 (sealed a_key) ≡ ok a_key)
decrypt-encrypt_example =
    decrypt-encrypt tagging draws_one a_key 3 4 eight tag a_key (sealed eight) (sealed tag)
      (sealed a_key) tagging-IsAead draws_one-IsDrawn refl payload_runs candidate_runs
      vault_key_runs

abbrev item_four : ℕ
item_four = 4

abbrev item_five : ℕ
item_five = 5

abbrev vault_three : ℕ
vault_three = 3

aad_binding_example :
    ((payload_aad vault_three item_four ≡ payload_aad vault_three item_five)
      ↔ ((vault_three ≡ vault_three) × (item_four ≡ item_five)))
    × ((rotation_candidate_aad vault_three item_four ≡ rotation_candidate_aad vault_three item_five)
        ↔ ((vault_three ≡ vault_three) × (item_four ≡ item_five)))
    × ((vault_key_aad vault_three ≡ vault_key_aad vault_three) ↔ (vault_three ≡ vault_three))
    × (payload_aad vault_three item_four ≢ rotation_candidate_aad vault_three item_five)
    × (payload_aad vault_three item_four ≢ vault_key_aad vault_three)
    × (rotation_candidate_aad vault_three item_four ≢ vault_key_aad vault_three)
aad_binding_example =
    aad_binding vault_three item_four vault_three item_five
      ((omega arith, omega arith), (omega arith, omega arith))
