-- ===== src/Crypto/Fixtures.antt =====
-- A cipher that only adds a tag of 16 bytes, and keys, nonces and blobs for it.
use zann.Base.{◌≡◌, refl, some, [], ◌∷◌, ◌++◌, drop, length-append, arith}
use zann.Crypto.Blob.{Bytes, to_bytes}
use zann.Crypto.Envelope.{Cipher, IsAead, Draws}
use zann.Crypto.RoundTrip.{IsDrawn}

abbrev pub eight : Bytes
eight = 1 ∷ (2 ∷ (3 ∷ (4 ∷ (5 ∷ (6 ∷ (7 ∷ (8 ∷ [])))))))

abbrev pub tag : Bytes
tag = eight ++ eight

abbrev pub tagging : Cipher
tagging = record {
  encrypt = λ key nonce aad msg. some (tag ++ msg);
  decrypt = λ key nonce aad ciphertext. some (drop 16 ciphertext);
}

some_injective {ℓ} : {A : Type ℓ} {a b : A} → some a ≡ some b → a ≡ b
some_injective e = cc

pub tagging-IsAead : IsAead tagging
tagging-IsAead = record {
  decrypts = λ key nonce aad msg ciphertext e. rw (← some_injective e) refl;
  tagged = λ key nonce aad msg ciphertext e.
      rw (← some_injective e) (omega (arith, length-append tag msg));
}

abbrev pub draws_one : Draws
draws_one = record { dek = tag ++ tag; dek_nonce = eight ++ tag; nonce = tag ++ eight }

pub draws_one-IsDrawn : IsDrawn draws_one
draws_one-IsDrawn = record { dek = refl; dek_nonce = refl; nonce = refl }

abbrev pub a_key : Bytes
a_key = tag ++ tag

-- The bytes that a vault stores for a message.
abbrev pub sealed : Bytes → Bytes
sealed msg = to_bytes (record {
  kek_id = 0;
  algo_dek = 1;
  algo_kek = 1;
  enc_dek = (eight ++ tag) ++ (tag ++ a_key);
  nonce = tag ++ eight;
  ciphertext = tag ++ msg;
})
