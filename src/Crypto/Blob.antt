-- ===== src/Crypto/Blob.antt =====
-- crates/zann-crypto/src/crypto.rs: the bytes of an encrypted blob.
use zann.Base.{
  ℕ, zero, suc, ◌+◌, ◌*◌, ◌/◌, ◌%◌, min, ◌||◌, not, List, [], ◌∷◌, ◌++◌, codes, text_eq, length,
  take, drop, ltb, ◌==◌, if◌then◌else◌, Result, ok, err,
}

abbrev pub Bytes : Type 0
Bytes = List ℕ

pub record EncryptedBlob : Type 0 where
  pub kek_id : ℕ
  pub algo_dek : ℕ
  pub algo_kek : ℕ
  pub enc_dek : Bytes
  pub nonce : Bytes
  pub ciphertext : Bytes

pub data CryptoError : Type 0 where
  invalid_blob : CryptoError
  unsupported_version : ℕ → CryptoError
  unsupported_algorithm : ℕ → CryptoError
  encryption_failed : CryptoError
  decryption_failed : CryptoError

abbrev pub blob_magic : Bytes
blob_magic = codes "ZAN"

abbrev pub blob_version : ℕ
blob_version = 1

abbrev pub max_blob_section_len : ℕ
max_blob_section_len = 1024

-- `u32::to_le_bytes` and `u32::from_le_bytes`.
abbrev pub to_le_bytes : ℕ → Bytes
to_le_bytes n = n % 256 ∷ ((n / 256) % 256 ∷ ((n / 65536) % 256 ∷ ((n / 16777216) % 256 ∷ [])))

abbrev pub from_le_bytes : ℕ → ℕ → ℕ → ℕ → ℕ
from_le_bytes a b c d = a + 256 * b + 65536 * c + 16777216 * d

-- `u32::try_from(len).unwrap_or(u32::MAX)`.
abbrev pub len_u32 : Bytes → ℕ
len_u32 bytes = min (length bytes) 4294967295

unfoldable pub to_bytes : EncryptedBlob → Bytes
to_bytes blob =
    blob_magic
    ++ (blob_version ∷ [])
    ++ to_le_bytes blob.kek_id
    ++ (blob.algo_dek ∷ (blob.algo_kek ∷ []))
    ++ to_le_bytes (len_u32 blob.enc_dek)
    ++ to_le_bytes (len_u32 blob.nonce)
    ++ blob.enc_dek
    ++ blob.nonce
    ++ blob.ciphertext

-- `bytes[i]`, behind a check of the length; 0 stands for the panic out of range.
abbrev pub byte_at : ℕ → Bytes → ℕ
byte_at i [] = 0
byte_at zero (b ∷ bs) = b
byte_at (suc i) (b ∷ bs) = byte_at i bs

unfoldable pub parse_v1_envelope : Bytes → Result CryptoError EncryptedBlob
parse_v1_envelope bytes =
    let word = λ (i : ℕ).
      from_le_bytes (byte_at i bytes) (byte_at (i + 1) bytes) (byte_at (i + 2) bytes)
        (byte_at (i + 3) bytes) in
    let enc_dek_len = word 10 in
    let nonce_len = word 14 in
    if ltb (length bytes) 18
    then err invalid_blob
    else if ltb max_blob_section_len enc_dek_len || ltb max_blob_section_len nonce_len
    then err invalid_blob
    else if ltb (length bytes) (18 + enc_dek_len + nonce_len)
    then err invalid_blob
    else ok (record {
      kek_id = word 4;
      algo_dek = byte_at 8 bytes;
      algo_kek = byte_at 9 bytes;
      enc_dek = take enc_dek_len (drop 18 bytes);
      nonce = take nonce_len (drop (18 + enc_dek_len) bytes);
      ciphertext = drop (18 + enc_dek_len + nonce_len) bytes;
    })

unfoldable pub from_bytes : Bytes → Result CryptoError EncryptedBlob
unfolding parse_v1_envelope
from_bytes bytes =
    if ltb (length bytes) 4
    then err invalid_blob
    else if not (text_eq (take 3 bytes) blob_magic)
    then err invalid_blob
    else if not (byte_at 3 bytes == blob_version)
    then err (unsupported_version (byte_at 3 bytes))
    else parse_v1_envelope bytes
