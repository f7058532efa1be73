-- ===== src/Crypto/Canonical.antt =====
-- crates/zann-crypto/src/crypto.rs: the parser of blobs accepts no bytes but those of the printer.
use zann.Base.{
  Bool, true, false, ◌||◌, not, ℕ, ◌+◌, ◌≤◌, ◌≡◌, refl, sym, ◌∙◌, ap, ◌∷◌, ◌++◌, length, take, drop,
  ltb, ◌==◌, All, guard-ok, arith, Result, ok, text_eq, text_eq→eq,
}
use zann.Crypto.Blob.{
  Bytes, EncryptedBlob, from_le_bytes, byte_at, to_bytes, from_bytes, parse_v1_envelope,
  max_blob_section_len, len_u32, blob_magic, blob_version,
}
use zann.Crypto.Pieces.{
  IsByte, take-drop, length-take, length-drop, word-drop, byte-drop, sections-drop,
}

not-false : (b : Bool) → not b ≡ false → b ≡ true
not-false true e = refl
not-false false e = cc

ok-inj : {E A : Type 0} (a b : A) → ◌≡◌ {A = Result E A} (ok a) (ok b) → a ≡ b
ok-inj a b e = cc

abbrev word : ℕ → Bytes → ℕ
word i bytes =
    from_le_bytes (byte_at i bytes) (byte_at (i + 1) bytes) (byte_at (i + 2) bytes)
      (byte_at (i + 3) bytes)

-- The blob that accepted bytes hold.
abbrev parsed : Bytes → EncryptedBlob
parsed bytes = record {
  kek_id = word 4 bytes;
  algo_dek = byte_at 8 bytes;
  algo_kek = byte_at 9 bytes;
  enc_dek = take (word 10 bytes) (drop 18 bytes);
  nonce = take (word 14 bytes) (drop (18 + word 10 bytes) bytes);
  ciphertext = drop (18 + word 10 bytes + word 14 bytes) bytes;
}

record Accepted (bytes : Bytes) (blob : EncryptedBlob) : Type 0 where
  magic : take 3 bytes ≡ blob_magic
  version : byte_at 3 bytes ≡ blob_version
  enc_dek : word 10 bytes ≤ max_blob_section_len
  nonce : word 14 bytes ≤ max_blob_section_len
  size : 18 + word 10 bytes + word 14 bytes ≤ length bytes
  same : parsed bytes ≡ blob

from_bytes-Accepted :
    (bytes : Bytes) (blob : EncryptedBlob) → from_bytes bytes ≡ ok blob → Accepted bytes blob
unfolding from_bytes parse_v1_envelope
from_bytes-Accepted bytes blob e =
    let long = guard-ok (ltb (length bytes) 4) _ _ blob e in
    let magic = guard-ok (not (text_eq (take 3 bytes) blob_magic)) _ _ blob long.1 in
    let version = guard-ok (not (byte_at 3 bytes == blob_version)) _ _ blob magic.1 in
    let head = guard-ok (ltb (length bytes) 18) _ _ blob version.1 in
    let sections =
      guard-ok
        (ltb max_blob_section_len (word 10 bytes) || ltb max_blob_section_len (word 14 bytes)) _ _
        blob head.1 in
    let whole =
      guard-ok (ltb (length bytes) (18 + word 10 bytes + word 14 bytes)) _ _ blob sections.1 in
    let same_version = not-false (byte_at 3 bytes == blob_version) version.0 in
    record {
      magic = text_eq→eq (take 3 bytes) blob_magic (not-false _ magic.0);
      version = ground (arith, same_version);
      enc_dek = ground (arith, sections.0);
      nonce = ground (arith, sections.0);
      size = ground (arith, whole.0);
      same = ok-inj (parsed bytes) blob whole.1;
    }

section_len :
    (n : ℕ) (xs : Bytes) → n ≤ length xs → n ≤ max_blob_section_len → len_u32 (take n xs) ≡ n
section_len n xs h k = omega (arith, h, k, length-take n xs h)

-- Bytes (numbers below 256) that parse to a blob are the bytes that the blob prints to.
pub to_bytes-from_bytes :
    (bytes : Bytes) (blob : EncryptedBlob)
    → All IsByte bytes
    → from_bytes bytes ≡ ok blob
    → to_bytes blob ≡ bytes
unfolding to_bytes
to_bytes-from_bytes bytes blob all e =
    let a = from_bytes-Accepted bytes blob e in
    let m = word 10 bytes in
    let n = word 14 bytes in
    let dek_len =
      section_len m (drop 18 bytes) (omega (arith, a.size, length-drop 18 bytes)) a.enc_dek in
    let nonce_len =
      section_len n (drop (18 + m) bytes) (omega (arith, a.size, length-drop (18 + m) bytes))
        a.nonce in
    let start : blob_magic ++ drop 3 bytes ≡ bytes =
      ap (λ t. t ++ drop 3 bytes) (sym a.magic) ∙ take-drop 3 bytes in
    let version : blob_version ∷ drop 4 bytes ≡ drop 3 bytes =
      ap (λ v. v ∷ drop 4 bytes) (sym a.version) ∙ byte-drop 3 bytes (omega (arith, a.size)) in
    ap to_bytes (sym a.same)
    ∙ rw
        (
          dek_len,
          nonce_len,
          sections-drop 18 m n bytes,
          word-drop 14 bytes all (omega (arith, a.size)),
          word-drop 10 bytes all (omega (arith, a.size)),
          byte-drop 9 bytes (omega (arith, a.size)),
          byte-drop 8 bytes (omega (arith, a.size)),
          word-drop 4 bytes all (omega (arith, a.size)),
          version,
          start,
        )
        refl
