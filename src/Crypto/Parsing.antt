-- ===== src/Crypto/Parsing.antt =====
-- crates/zann-crypto/src/crypto.rs: the bytes of a blob and their parser are inverse.
use mathlib.Core.List.{append_assoc}
use zann.Base.{
  false, ◌||◌, ℕ, zero, suc, ◌+◌, ◌/◌, ◌%◌, ◌≤◌, ◌<◌, ◌≡◌, refl, sym, ◌∙◌, ap, [], ◌∷◌, ◌++◌,
  length, take, drop, ltb, arith, ok, length-append, text_eq,
}
use zann.Crypto.Blob.{
  Bytes, EncryptedBlob, from_le_bytes, to_bytes, from_bytes, parse_v1_envelope,
  max_blob_section_len, len_u32,
}

from_le_bytes-to_le_bytes :
    (n : ℕ)
    → n < 4294967296
    → from_le_bytes (n % 256) ((n / 256) % 256) ((n / 65536) % 256) ((n / 16777216) % 256) ≡ n
from_le_bytes-to_le_bytes n h = omega (arith, h)

pub take-append : (xs ys : Bytes) → take (length xs) (xs ++ ys) ≡ xs
take-append [] ys = refl
take-append (x ∷ xs) ys = rw (take-append xs ys)

pub drop-append : (xs ys : Bytes) → drop (length xs) (xs ++ ys) ≡ ys
drop-append [] ys = refl
drop-append (x ∷ xs) ys = drop-append xs ys

-- The lengths that the format can hold and the parser accepts.
pub record IsSized (blob : EncryptedBlob) : Type 0 where
  pub kek_id : blob.kek_id < 4294967296
  pub enc_dek : length blob.enc_dek ≤ max_blob_section_len
  pub nonce : length blob.nonce ≤ max_blob_section_len

pub drop_none : (k : ℕ) → drop {A = ℕ} k [] ≡ []
drop_none zero = refl
drop_none (suc k) = refl

pub drop_add : (a b : ℕ) (xs : Bytes) → drop (a + b) xs ≡ drop b (drop a xs)
drop_add zero b xs = ap (λ k. drop k xs) (omega arith)
drop_add (suc a) b [] = drop_none (suc a + b) ∙ sym (drop_none b)
drop_add (suc a) b (x ∷ xs) =
    let e : suc a + b ≡ suc (a + b) = omega arith in ap (λ k. drop k (x ∷ xs)) e ∙ drop_add a b xs

word_of :
    (bytes : Bytes)
    → length bytes ≤ max_blob_section_len
    → from_le_bytes
        (len_u32 bytes % 256)
        ((len_u32 bytes / 256) % 256)
        ((len_u32 bytes / 65536) % 256)
        ((len_u32 bytes / 16777216) % 256)
      ≡ length bytes
word_of bytes h = omega (arith, h)

module _ (m n : ℕ) (small : (m ≤ max_blob_section_len) × (n ≤ max_blob_section_len)) where
  accepted :
      (bytes : Bytes) (k : ℕ)
      → length bytes ≡ 18 + (m + n + k)
      → (ltb (length bytes) 18 ≡ false)
        × (ltb max_blob_section_len m || ltb max_blob_section_len n ≡ false)
        × (ltb (length bytes) (18 + m + n) ≡ false)
        × (ltb (length bytes) 4 ≡ false)
  accepted bytes k e =
      (ground (arith, e), ground (arith, small), ground (arith, e), ground (arith, e))

-- The bytes of a blob parse back to it, when its key id has 32 bits and neither its wrapped key nor
-- its nonce is longer than the 1024 bytes that the parser accepts.
pub from_bytes-to_bytes :
    (blob : EncryptedBlob) → IsSized blob → from_bytes (to_bytes blob) ≡ ok blob
unfolding from_bytes to_bytes parse_v1_envelope text_eq
from_bytes-to_bytes blob h =
    let m = length blob.enc_dek in
    let n = length blob.nonce in
    let size : length ((blob.enc_dek ++ blob.nonce) ++ blob.ciphertext)
        ≡ m + n + length blob.ciphertext =
      omega (
        arith,
        length-append (blob.enc_dek ++ blob.nonce) blob.ciphertext,
        length-append blob.enc_dek blob.nonce,
      ) in
    let test =
      accepted m n (h.enc_dek, h.nonce) (to_bytes blob) (length blob.ciphertext)
        (omega (arith, size)) in
    rw
      (
        from_le_bytes-to_le_bytes blob.kek_id h.kek_id,
        word_of blob.enc_dek h.enc_dek,
        word_of blob.nonce h.nonce,
        test.3,
        test.0,
        test.1,
        test.2,
        drop_add (18 + m) n,
        drop_add 18 m,
        append_assoc blob.enc_dek blob.nonce blob.ciphertext,
        take-append blob.enc_dek (blob.nonce ++ blob.ciphertext),
        drop-append blob.enc_dek (blob.nonce ++ blob.ciphertext),
        take-append blob.nonce blob.ciphertext,
        drop-append blob.nonce blob.ciphertext,
      )
      refl
