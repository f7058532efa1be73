-- ===== src/Crypto/Pieces.antt =====
-- crates/zann-crypto/src/crypto.rs: byte strings put together again from what a parser cuts off them.
use mathlib.Core.List.{append_assoc}
use zann.Base.{
  ℕ, zero, suc, ◌+◌, ◌/◌, ◌%◌, ◌≤◌, ◌<◌, ◌≡◌, refl, ◌∙◌, ap, [], ◌∷◌, ◌++◌, length, take, drop, All,
  arith,
}
use zann.Crypto.Blob.{Bytes, byte_at, to_le_bytes, from_le_bytes}
use zann.Crypto.Parsing.{drop_add}

abbrev pub IsByte : ℕ → Type 0
IsByte b = b < 256

pub take-drop : (n : ℕ) (xs : Bytes) → take n xs ++ drop n xs ≡ xs
take-drop zero xs = refl
take-drop (suc n) [] = refl
take-drop (suc n) (x ∷ xs) = rw (take-drop n xs)

pub length-take : (n : ℕ) (xs : Bytes) → n ≤ length xs → length (take n xs) ≡ n
length-take zero xs h = refl
length-take (suc n) [] h = omega (arith, h)
length-take (suc n) (x ∷ xs) h = omega (arith, h, length-take n xs)

pub length-drop : (n : ℕ) (xs : Bytes) → n ≤ length xs → length (drop n xs) + n ≡ length xs
length-drop zero xs h = omega arith
length-drop (suc n) [] h = omega (arith, h)
length-drop (suc n) (x ∷ xs) h =
    let rest = length-drop n xs (omega (arith, h)) in omega (arith, rest)

All-drop : (n : ℕ) (xs : Bytes) → All IsByte xs → All IsByte (drop n xs)
All-drop zero xs h = h
All-drop (suc n) [] h = h
All-drop (suc n) (x ∷ xs) h = All-drop n xs h.1

byte_at-drop : (i k : ℕ) (xs : Bytes) → byte_at (i + k) xs ≡ byte_at k (drop i xs)
byte_at-drop zero k xs = ap (λ j. byte_at j xs) (omega arith)
byte_at-drop (suc i) k [] = refl
byte_at-drop (suc i) k (x ∷ xs) =
    let e : suc i + k ≡ suc (i + k) = omega arith in
    ap (λ j. byte_at j (x ∷ xs)) e ∙ byte_at-drop i k xs

to_le_bytes-from_le_bytes :
    (a b c d : ℕ)
    → IsByte a
    → IsByte b
    → IsByte c
    → IsByte d
    → to_le_bytes (from_le_bytes a b c d) ≡ a ∷ (b ∷ (c ∷ (d ∷ [])))
to_le_bytes-from_le_bytes a b c d ha hb hc hd =
    let n = from_le_bytes a b c d in
    let e0 : n % 256 ≡ a = omega (arith, ha) in
    let e1 : (n / 256) % 256 ≡ b = omega (arith, ha, hb) in
    let e2 : (n / 65536) % 256 ≡ c = omega (arith, ha, hb, hc) in
    let e3 : (n / 16777216) % 256 ≡ d = omega (arith, ha, hb, hc, hd) in rw (e0, e1, e2, e3) refl

first_word :
    (xs : Bytes)
    → All IsByte xs
    → 4 ≤ length xs
    → to_le_bytes (from_le_bytes (byte_at 0 xs) (byte_at 1 xs) (byte_at 2 xs) (byte_at 3 xs))
        ++ drop 4 xs
      ≡ xs
first_word [] h n = ground (arith, n)
first_word (a ∷ []) h n = ground (arith, n)
first_word (a ∷ (b ∷ [])) h n = ground (arith, n)
first_word (a ∷ (b ∷ (c ∷ []))) h n = ground (arith, n)
first_word (a ∷ (b ∷ (c ∷ (d ∷ xs)))) h n =
    ap (λ w. w ++ xs) (to_le_bytes-from_le_bytes a b c d h.0 h.1.0 h.1.1.0 h.1.1.1.0)

-- A word that is read at a place prints as the bytes there.
pub word-drop :
    (i : ℕ) (xs : Bytes)
    → All IsByte xs
    → i + 4 ≤ length xs
    → to_le_bytes (
          from_le_bytes
            (byte_at (i + 0) xs)
            (byte_at (i + 1) xs)
            (byte_at (i + 2) xs)
            (byte_at (i + 3) xs))
        ++ drop (i + 4) xs
      ≡ drop i xs
word-drop i xs h n =
    rw
      (
        byte_at-drop i 0 xs,
        byte_at-drop i 1 xs,
        byte_at-drop i 2 xs,
        byte_at-drop i 3 xs,
        drop_add i 4 xs,
      )
      (first_word (drop i xs) (All-drop i xs h) (omega (arith, n, length-drop i xs)))

-- So does a byte.
pub byte-drop : (i : ℕ) (xs : Bytes) → i < length xs → byte_at i xs ∷ drop (i + 1) xs ≡ drop i xs
byte-drop zero [] h = ground (arith, h)
byte-drop zero (x ∷ xs) h = refl
byte-drop (suc i) [] h = ground (arith, h)
byte-drop (suc i) (x ∷ xs) h =
    let e : suc i + 1 ≡ suc (i + 1) = omega arith in rw e (byte-drop i xs (omega (arith, h)))

-- So do two sections and what follows them.
pub sections-drop :
    (i m n : ℕ) (xs : Bytes)
    → (take m (drop i xs) ++ take n (drop (i + m) xs)) ++ drop (i + m + n) xs ≡ drop i xs
sections-drop i m n xs =
    rw
      (
        drop_add (i + m) n xs,
        drop_add i m xs,
        append_assoc (take m (drop i xs)) (take n (drop m (drop i xs)))
            (drop n (drop m (drop i xs))),
        take-drop n (drop m (drop i xs)),
        take-drop m (drop i xs),
      )
      refl
