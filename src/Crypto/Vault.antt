-- ===== src/Crypto/Vault.antt =====
-- crates/zann-crypto/src/vault_crypto.rs: what a vault encrypts, each kind under associated data of
-- its own. The JSON of a payload (crate serde_json) is a parameter.
use zann.Base.{
  ℕ, zero, suc, ◌/◌, ◌%◌, Bool, Option, List, [], ◌∷◌, ◌++◌, Text, String, codes, length, ◌==◌,
  ensure, Result, ok, err, ok_or, ◌>>=◌, ◌>>◌,
}
use zann.Crypto.Blob.{Bytes, CryptoError, to_bytes, from_bytes}
use zann.Crypto.Envelope.{Cipher, Draws, encrypt_blob, decrypt_blob}

pub data FieldKind : Type 0 where
  text password url otp note : FieldKind

pub record FieldMeta : Type 0 where
  pub masked : Option Bool
  pub multiline : Option Bool
  pub copyable : Option Bool
  pub readonly : Option Bool
  pub placeholder : Option Text

pub record FieldValue : Type 0 where
  pub kind : FieldKind
  pub value : Text
  pub meta : Option FieldMeta

-- The hash maps are lists in the order of their iteration.
pub record EncryptedPayload : Type 0 where
  pub v : ℕ
  pub type_id : Text
  pub fields : List (Text × FieldValue)
  pub extra : Option (List (Text × Text))

-- `serde_json::to_vec` and `serde_json::from_slice` of a payload.
pub record PayloadJson : Type 0 where
  pub to_vec : EncryptedPayload → Option Bytes
  pub from_slice : Bytes → Option EncryptedPayload

pub data VaultCryptoError : Type 0 where
  invalid_blob invalid_key_length invalid_payload encrypt_failed decrypt_failed : VaultCryptoError

abbrev pub as_code : VaultCryptoError → String
as_code invalid_blob = "invalid_blob"
as_code invalid_key_length = "invalid_key_length"
as_code invalid_payload = "invalid_payload"
as_code encrypt_failed = "encrypt_failed"
as_code decrypt_failed = "decrypt_failed"

-- `map_err(|_| e)`.
abbrev pub map_err :
    {A : Type 0} → Result CryptoError A → VaultCryptoError → Result VaultCryptoError A
map_err (ok a) e = ok a
map_err (err _) e = err e

-- The lowest `k` bytes of a number, big end first; `Uuid::as_bytes` is 16 of them.
abbrev pub be_bytes : ℕ → ℕ → Bytes
be_bytes zero n = []
be_bytes (suc k) n = be_bytes k (n / 256) ++ n % 256 ∷ []

unfoldable pub as_bytes : ℕ → Bytes
as_bytes id = be_bytes 16 id

unfoldable pub vault_key_aad : ℕ → Bytes
vault_key_aad vault_id = codes "zann:vault_key:v1" ++ as_bytes vault_id

unfoldable pub payload_aad : ℕ → ℕ → Bytes
payload_aad vault_id item_id = codes "zann:payload:v1" ++ (as_bytes vault_id ++ as_bytes item_id)

unfoldable pub rotation_candidate_aad : ℕ → ℕ → Bytes
rotation_candidate_aad vault_id item_id =
    codes "zann:rotation_candidate:v1" ++ (as_bytes vault_id ++ as_bytes item_id)

module _ (cipher : Cipher) where
  -- Encrypts to the bytes of a blob, and back.
  abbrev pub seal : Draws → Bytes → Bytes → Bytes → Result VaultCryptoError Bytes
  seal draws key msg aad = do
    blob ← map_err (encrypt_blob cipher draws key msg aad) encrypt_failed
    ok (to_bytes blob)

  abbrev pub unseal : Bytes → Bytes → Bytes → Result VaultCryptoError Bytes
  unseal key enc aad = do
    blob ← map_err (from_bytes enc) invalid_blob
    map_err (decrypt_blob cipher key blob aad) decrypt_failed

  unfoldable pub encrypt_vault_key : Draws → Bytes → ℕ → Bytes → Result VaultCryptoError Bytes
  encrypt_vault_key draws master_key vault_id vault_key =
      seal draws master_key vault_key (vault_key_aad vault_id)

  unfoldable pub decrypt_vault_key : Bytes → ℕ → Bytes → Result VaultCryptoError Bytes
  decrypt_vault_key master_key vault_id vault_key_enc = do
    key_bytes ← unseal master_key vault_key_enc (vault_key_aad vault_id)
    ensure (length key_bytes == 32) invalid_key_length
    ok key_bytes

  unfoldable pub encrypt_payload_bytes :
      Draws → Bytes → ℕ → ℕ → Bytes → Result VaultCryptoError Bytes
  encrypt_payload_bytes draws vault_key vault_id item_id payload_bytes =
      seal draws vault_key payload_bytes (payload_aad vault_id item_id)

  unfoldable pub decrypt_payload_bytes : Bytes → ℕ → ℕ → Bytes → Result VaultCryptoError Bytes
  decrypt_payload_bytes vault_key vault_id item_id payload_enc =
      unseal vault_key payload_enc (payload_aad vault_id item_id)

  unfoldable pub encrypt_rotation_candidate :
      Draws → Bytes → ℕ → ℕ → Bytes → Result VaultCryptoError Bytes
  encrypt_rotation_candidate draws vault_key vault_id item_id candidate =
      seal draws vault_key candidate (rotation_candidate_aad vault_id item_id)

  unfoldable pub decrypt_rotation_candidate : Bytes → ℕ → ℕ → Bytes → Result VaultCryptoError Bytes
  decrypt_rotation_candidate vault_key vault_id item_id candidate_enc =
      unseal vault_key candidate_enc (rotation_candidate_aad vault_id item_id)

  module _ (json : PayloadJson) where
    unfoldable pub encrypt_payload :
        Draws → Bytes → ℕ → ℕ → EncryptedPayload → Result VaultCryptoError Bytes
    encrypt_payload draws vault_key vault_id item_id payload = do
      payload_bytes ← ok_or (json.to_vec payload) invalid_payload
      encrypt_payload_bytes draws vault_key vault_id item_id payload_bytes

    unfoldable pub decrypt_payload :
        Bytes → ℕ → ℕ → Bytes → Result VaultCryptoError EncryptedPayload
    decrypt_payload vault_key vault_id item_id payload_enc = do
      payload_bytes ← decrypt_payload_bytes vault_key vault_id item_id payload_enc
      ok_or (json.from_slice payload_bytes) invalid_payload
