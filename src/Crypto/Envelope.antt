-- ===== src/Crypto/Envelope.antt =====
-- crates/zann-crypto/src/crypto.rs: encryption under a fresh data key, which is wrapped under the
-- key given. The cipher XChaCha20Poly1305 (crate chacha20poly1305) is a parameter, and what `OsRng`
-- draws are arguments.
use zann.Base.{
  ℕ, ◌||◌, not, Option, some, [], ◌∷◌, ◌++◌, length, take, drop, ltb, ◌==◌, ensure, Result, ok,
  ok_or, ◌>>=◌, ◌>>◌, ◌≡◌, ◌+◌,
}
use zann.Crypto.Blob.{
  Bytes, EncryptedBlob, CryptoError, invalid_blob, unsupported_algorithm, encryption_failed,
  decryption_failed, to_le_bytes,
}

-- `encrypt` and `decrypt` of a key, a nonce, associated data and a message.
pub record Cipher : Type 0 where
  pub encrypt : Bytes → Bytes → Bytes → Bytes → Option Bytes
  pub decrypt : Bytes → Bytes → Bytes → Bytes → Option Bytes

-- What the crate documents: a message comes back under the same key, nonce and associated data, and
-- the tag adds 16 bytes.
pub record IsAead (cipher : Cipher) : Type 0 where
  pub decrypts :
      (key nonce aad msg ciphertext : Bytes)
      → cipher.encrypt key nonce aad msg ≡ some ciphertext
      → cipher.decrypt key nonce aad ciphertext ≡ some msg
  pub tagged :
      (key nonce aad msg ciphertext : Bytes)
      → cipher.encrypt key nonce aad msg ≡ some ciphertext
      → length ciphertext ≡ length msg + 16

-- The draws of one encryption: the data key and the two nonces.
pub record Draws : Type 0 where
  pub dek : Bytes
  pub dek_nonce : Bytes
  pub nonce : Bytes

abbrev pub alg_xchacha20poly1305 : ℕ
alg_xchacha20poly1305 = 1

abbrev pub xchacha_nonce_len : ℕ
xchacha_nonce_len = 24

unfoldable pub v1_header_bytes : ℕ → ℕ → ℕ → Bytes
v1_header_bytes kek_id dek_algo kek_algo = to_le_bytes kek_id ++ dek_algo ∷ (kek_algo ∷ [])

unfoldable pub v1_payload_aad : Bytes → Bytes → Bytes
v1_payload_aad header aad = header ++ aad

module _ (cipher : Cipher) where
  unfoldable pub wrap_dek : Draws → Bytes → Result CryptoError Bytes
  wrap_dek draws kek = do
    ciphertext ← ok_or (cipher.encrypt kek draws.dek_nonce [] draws.dek) encryption_failed
    ok (draws.dek_nonce ++ ciphertext)

  unfoldable pub unwrap_dek : Bytes → Bytes → Result CryptoError Bytes
  unwrap_dek kek enc_dek = do
    ensure (not (ltb (length enc_dek) xchacha_nonce_len)) invalid_blob
    dek_bytes ←
        ok_or
          (cipher.decrypt kek (take xchacha_nonce_len enc_dek) [] (drop xchacha_nonce_len enc_dek))
          decryption_failed
    ensure (length dek_bytes == 32) invalid_blob
    ok dek_bytes

  unfoldable pub encrypt_blob : Draws → Bytes → Bytes → Bytes → Result CryptoError EncryptedBlob
  encrypt_blob draws key plaintext aad = do
    enc_dek ← wrap_dek draws key
    let header = v1_header_bytes 0 alg_xchacha20poly1305 alg_xchacha20poly1305
    ciphertext ←
        ok_or (cipher.encrypt draws.dek draws.nonce (v1_payload_aad header aad) plaintext)
          encryption_failed
    ok (record {
      kek_id = 0;
      algo_dek = alg_xchacha20poly1305;
      algo_kek = alg_xchacha20poly1305;
      enc_dek = enc_dek;
      nonce = draws.nonce;
      ciphertext = ciphertext;
    })

  unfoldable pub decrypt_v1_envelope : Bytes → EncryptedBlob → Bytes → Result CryptoError Bytes
  decrypt_v1_envelope key blob aad = do
    ensure
        (not (
          not (blob.algo_kek == alg_xchacha20poly1305)
          || not (blob.algo_dek == alg_xchacha20poly1305)))
        (unsupported_algorithm blob.algo_dek)
    dek ← unwrap_dek key blob.enc_dek
    ensure (length blob.nonce == xchacha_nonce_len) invalid_blob
    let header = v1_header_bytes blob.kek_id blob.algo_dek blob.algo_kek
    ok_or (cipher.decrypt dek blob.nonce (v1_payload_aad header aad) blob.ciphertext)
        decryption_failed

  unfoldable pub decrypt_blob : Bytes → EncryptedBlob → Bytes → Result CryptoError Bytes
  unfolding decrypt_v1_envelope
  decrypt_blob key blob aad = decrypt_v1_envelope key blob aad
