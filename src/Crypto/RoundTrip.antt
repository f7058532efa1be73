-- ===== src/Crypto/RoundTrip.antt =====
-- crates/zann-crypto/src/crypto.rs and vault_crypto.rs: what is encrypted comes back.
use zann.Base.{
  true, false, ℕ, ◌≡◌, refl, some, [], ◌++◌, length, take, drop, length-append, arith, Result, ok,
  err, Option-cases, Result-cases, inl, inr, ◌==◌, ltb,
}
use zann.Crypto.Blob.{CryptoError, Bytes, EncryptedBlob, to_bytes}
use zann.Crypto.Envelope.{
  Cipher, IsAead, Draws, wrap_dek, unwrap_dek, encrypt_blob, decrypt_blob, decrypt_v1_envelope,
  alg_xchacha20poly1305, v1_payload_aad, v1_header_bytes,
}
use zann.Crypto.Parsing.{IsSized, from_bytes-to_bytes, take-append, drop-append}
use zann.Crypto.Vault.{
  VaultCryptoError, vault_key_aad, encrypt_payload_bytes, decrypt_payload_bytes,
  encrypt_rotation_candidate, decrypt_rotation_candidate, encrypt_vault_key, decrypt_vault_key,
  seal, unseal,
}

-- The sizes of the keys and nonces that are drawn.
pub record IsDrawn (draws : Draws) : Type 0 where
  pub dek : length draws.dek ≡ 32
  pub dek_nonce : length draws.dek_nonce ≡ 24
  pub nonce : length draws.nonce ≡ 24

take-append_at : (n : ℕ) (xs ys : Bytes) → length xs ≡ n → take n (xs ++ ys) ≡ xs
take-append_at n xs ys e = rw (← e) (take-append xs ys)

drop-append_at : (n : ℕ) (xs ys : Bytes) → length xs ≡ n → drop n (xs ++ ys) ≡ ys
drop-append_at n xs ys e = rw (← e) (drop-append xs ys)

ok_injective : {A : Type 0} (a b : A) (r : Result CryptoError A) → r ≡ ok a → r ≡ ok b → a ≡ b
ok_injective a b r e e' = cc

vault_ok_injective :
    {A : Type 0} (a b : A) (r : Result VaultCryptoError A) → r ≡ ok a → r ≡ ok b → a ≡ b
vault_ok_injective a b r e e' = cc

failed : {E A : Type 0} {x : E} {a : A} → err x ≡ ok a → ⊥
failed e = cc

module _ (cipher : Cipher) (aead : IsAead cipher) (draws : Draws) (drawn : IsDrawn draws) where
  unwrap_dek-wrap_dek :
      (kek wrapped : Bytes)
      → cipher.encrypt kek draws.dek_nonce [] draws.dek ≡ some wrapped
      → unwrap_dek cipher kek (draws.dek_nonce ++ wrapped) ≡ ok draws.dek
  unfolding unwrap_dek
  unwrap_dek-wrap_dek kek wrapped e =
      let long : ltb (length (draws.dek_nonce ++ wrapped)) 24 ≡ false =
        ground (arith, length-append draws.dek_nonce wrapped, drawn.dek_nonce) in
      let size : (length draws.dek == 32) ≡ true = ground (arith, drawn.dek) in
      rw
        (
          long,
          take-append_at 24 draws.dek_nonce wrapped drawn.dek_nonce,
          drop-append_at 24 draws.dek_nonce wrapped drawn.dek_nonce,
          aead.decrypts kek draws.dek_nonce [] draws.dek wrapped e,
          size,
        )
        refl

  -- The blob of two ciphertexts, of the data key and of the message.
  abbrev blob_of : Bytes → Bytes → EncryptedBlob
  blob_of wrapped ciphertext = record {
    kek_id = 0;
    algo_dek = alg_xchacha20poly1305;
    algo_kek = alg_xchacha20poly1305;
    enc_dek = draws.dek_nonce ++ wrapped;
    nonce = draws.nonce;
    ciphertext = ciphertext;
  }

  abbrev header_aad : Bytes → Bytes
  header_aad aad =
      v1_payload_aad (v1_header_bytes 0 alg_xchacha20poly1305 alg_xchacha20poly1305) aad

  blob_of-IsSized :
      (kek wrapped ciphertext : Bytes)
      → cipher.encrypt kek draws.dek_nonce [] draws.dek ≡ some wrapped
      → IsSized (blob_of wrapped ciphertext)
  blob_of-IsSized kek wrapped ciphertext e = record {
    kek_id = omega arith;
    enc_dek = omega (
      arith,
      length-append draws.dek_nonce wrapped,
      drawn.dek_nonce,
      drawn.dek,
      aead.tagged kek draws.dek_nonce [] draws.dek wrapped e,
    );
    nonce = omega (arith, drawn.nonce);
  }

  decrypt_blob-blob_of :
      (key plaintext aad wrapped ciphertext : Bytes)
      → cipher.encrypt key draws.dek_nonce [] draws.dek ≡ some wrapped
      → cipher.encrypt draws.dek draws.nonce (header_aad aad) plaintext ≡ some ciphertext
      → decrypt_blob cipher key (blob_of wrapped ciphertext) aad ≡ ok plaintext
  unfolding decrypt_blob decrypt_v1_envelope
  decrypt_blob-blob_of key plaintext aad wrapped ciphertext e e' =
      let size : (length draws.nonce == 24) ≡ true = ground (arith, drawn.nonce) in
      rw
        (
          unwrap_dek-wrap_dek key wrapped e,
          size,
          aead.decrypts draws.dek draws.nonce (header_aad aad) plaintext ciphertext e',
        )
        refl

  pub decrypt_blob-encrypt_blob :
      (key plaintext aad : Bytes) (blob : EncryptedBlob)
      → encrypt_blob cipher draws key plaintext aad ≡ ok blob
      → IsSized blob × (decrypt_blob cipher key blob aad ≡ ok plaintext)
  unfolding encrypt_blob wrap_dek
  decrypt_blob-encrypt_blob key plaintext aad blob e =
      elim (Option-cases (cipher.encrypt key draws.dek_nonce [] draws.dek)) [
        | inl none₁ ↦ absurd (failed (rw none₁ at e))
        | inr (wrapped, some₁) ↦
            elim (Option-cases (cipher.encrypt draws.dek draws.nonce (header_aad aad) plaintext)) [
              | inl none₂ ↦ absurd (failed (rw (some₁, none₂) at e))
              | inr (ciphertext, some₂) ↦
                  rw (← ok_injective (blob_of wrapped ciphertext) blob _ (rw (some₁, some₂) refl) e)
                    (
                      blob_of-IsSized key wrapped ciphertext some₁,
                      decrypt_blob-blob_of key plaintext aad wrapped ciphertext some₁ some₂,
                    )
            ]
      ]

  unseal-seal :
      (key msg aad enc : Bytes)
      → seal cipher draws key msg aad ≡ ok enc
      → unseal cipher key enc aad ≡ ok msg
  unseal-seal key msg aad enc e = elim (Result-cases (encrypt_blob cipher draws key msg aad)) [
    | inl (blob, e') ↦
        let parts = decrypt_blob-encrypt_blob key msg aad blob e' in
        let same = vault_ok_injective (to_bytes blob) enc _ (rw e' refl) e in
        rw (← same, from_bytes-to_bytes blob parts.0, parts.1) refl
    | inr (x, e') ↦ absurd (failed (rw e' at e))
  ]

pub payload_round_trip :
    (cipher : Cipher) (draws : Draws) (key : Bytes) (vault_id item_id : ℕ) (msg enc : Bytes)
    → IsAead cipher
    → IsDrawn draws
    → encrypt_payload_bytes cipher draws key vault_id item_id msg ≡ ok enc
    → decrypt_payload_bytes cipher key vault_id item_id enc ≡ ok msg
unfolding encrypt_payload_bytes decrypt_payload_bytes
payload_round_trip cipher draws key v i msg enc aead drawn e =
    unseal-seal cipher aead draws drawn key msg _ enc e

pub vault_key_round_trip :
    (cipher : Cipher) (draws : Draws) (key : Bytes) (vault_id : ℕ) (vault_key enc : Bytes)
    → IsAead cipher
    → IsDrawn draws
    → length vault_key ≡ 32
    → encrypt_vault_key cipher draws key vault_id vault_key ≡ ok enc
    → decrypt_vault_key cipher key vault_id enc ≡ ok vault_key
unfolding encrypt_vault_key decrypt_vault_key
vault_key_round_trip cipher draws key v vault_key enc aead drawn size e =
    let long : (length vault_key == 32) ≡ true = ground (arith, size) in
    rw (unseal-seal cipher aead draws drawn key vault_key (vault_key_aad v) enc e, long) refl

-- With the draws of the right sizes and a cipher that keeps its promises, whatever the code encrypts
-- for a vault comes back under the same key and ids: the bytes of a payload, a rotation candidate,
-- and the key of the vault, which has 32 bytes.
pub decrypt-encrypt :
    (cipher : Cipher) (draws : Draws) (key : Bytes) (vault_id item_id : ℕ)
    (payload candidate vault_key payload_enc candidate_enc vault_key_enc : Bytes)
    → IsAead cipher
    → IsDrawn draws
    → length vault_key ≡ 32
    → encrypt_payload_bytes cipher draws key vault_id item_id payload ≡ ok payload_enc
    → encrypt_rotation_candidate cipher draws key vault_id item_id candidate ≡ ok candidate_enc
    → encrypt_vault_key cipher draws key vault_id vault_key ≡ ok vault_key_enc
    → (decrypt_payload_bytes cipher key vault_id item_id payload_enc ≡ ok payload)
      × (decrypt_rotation_candidate cipher key vault_id item_id candidate_enc ≡ ok candidate)
      × (decrypt_vault_key cipher key vault_id vault_key_enc ≡ ok vault_key)
unfolding encrypt_rotation_candidate decrypt_rotation_candidate
decrypt-encrypt cipher draws key v i payload candidate vault_key p c k aead drawn size ep ec ek = (
  payload_round_trip cipher draws key v i payload p aead drawn ep,
  unseal-seal cipher aead draws drawn key candidate _ c ec,
  vault_key_round_trip cipher draws key v vault_key k aead drawn size ek,
)
