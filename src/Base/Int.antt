-- ===== src/Base/Int.antt =====
-- Signed integers over the native numbers, and their decimal text.
use zann.Base.Tests.{ltb, if◌then◌else◌}
use zann.Base.Chars.{Text}
use Prim.Native.Nat.{ℕ, zero, suc, ◌+◌, ◌/◌, ◌%◌}
use mathlib.Core.List.{[], ◌∷◌}
use mathlib.Core.Bool.{Bool}

-- `negsuc n` is -(n + 1).
pub data ℤ : Type 0 where
  pos : ℕ → ℤ
  negsuc : ℕ → ℤ

abbrev pub pos_part : ℤ → ℕ
pos_part (pos n) = n
pos_part (negsuc n) = 0

abbrev pub neg_part : ℤ → ℕ
neg_part (pos n) = 0
neg_part (negsuc n) = suc n

abbrev pub ltb_ℤ : ℤ → ℤ → Bool
ltb_ℤ a b = ltb (pos_part a + neg_part b) (pos_part b + neg_part a)

-- The digits of a number of at most `fuel` digits; 64-bit numbers have at most 20.
digits : ℕ → ℕ → Text → Text
digits zero n acc = acc
digits (suc fuel) n acc =
    let rest = digits fuel (n / 10) ((48 + n % 10) ∷ acc) in
    if ltb n 10 then (48 + n) ∷ acc else rest

-- `to_string` of a signed number of at most 64 bits.
unfoldable pub to_string : ℤ → Text
unfolding digits
to_string (pos n) = digits 20 n []
to_string (negsuc n) = 45 ∷ digits 20 (suc n) []
