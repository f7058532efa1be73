-- ===== src/Base/Chars.antt =====
-- Text as its list of code points, with the operations of Rust's `str` that the program calls.
use Prim.Native.Nat.{ℕ, suc}
use Prim.Native.Char.{code}
use Prim.Native.String.{String}
use mathlib.Core.Path.{◌≡◌, refl}
use mathlib.Core.Bool.{Bool, true, false, ◌||◌, ◌&&◌}
use mathlib.Core.List.{List, [], ◌∷◌, ◌++◌, reverse}
use mathlib.Core.Option.{Option, none, some}
use mathlib.Core.Option
use native.Mathlib.Omega.{arith}
use zann.Base.Tests.{◌==◌, leb, if◌then◌else◌}

abbrev pub Text : Type 0
Text = List ℕ

abbrev pub codes : String → Text
codes String.[] = []
codes (String.◌∷◌ c s) = code c ∷ codes s

-- `a == b` on `str`.
unfoldable pub text_eq : Text → Text → Bool
text_eq [] [] = true
text_eq [] (y ∷ ys) = false
text_eq (x ∷ xs) [] = false
text_eq (x ∷ xs) (y ∷ ys) = x == y && text_eq xs ys

pub text_eq_refl : (t : Text) → text_eq t t ≡ true
unfolding text_eq
text_eq_refl [] = refl
text_eq_refl (x ∷ xs) = ground (arith, text_eq_refl xs)

pub text_eq→eq : (s t : Text) → text_eq s t ≡ true → s ≡ t
unfolding text_eq
text_eq→eq [] [] h = refl
text_eq→eq [] (y ∷ ys) h = cc
text_eq→eq (x ∷ xs) [] h = cc
text_eq→eq (x ∷ xs) (y ∷ ys) h = ground (arith, text_eq→eq xs ys)

-- `is_empty`.
abbrev pub is_empty {ℓ} : {A : Type ℓ} → List A → Bool
is_empty [] = true
is_empty (x ∷ xs) = false

-- `strip_prefix`: what follows the prefix.
unfoldable pub strip_prefix : Text → Text → Option Text
strip_prefix [] t = some t
strip_prefix (p ∷ ps) [] = none
strip_prefix (p ∷ ps) (c ∷ cs) = let rest = strip_prefix ps cs in if p == c then rest else none

-- `starts_with`.
unfoldable pub starts_with : Text → Text → Bool
starts_with [] t = true
starts_with (p ∷ ps) [] = false
starts_with (p ∷ ps) (c ∷ cs) = p == c && starts_with ps cs

-- `ends_with`.
unfoldable pub ends_with : Text → Text → Bool
unfolding starts_with
ends_with p t = starts_with (reverse p) (reverse t)

-- `contains` of a character.
abbrev pub has_char : ℕ → Text → Bool
has_char c [] = false
has_char c (x ∷ xs) = x == c || has_char c xs

-- `char::is_whitespace`, the Unicode property White_Space.
unfoldable pub is_whitespace : ℕ → Bool
is_whitespace c =
    (leb 9 c && leb c 13)
    || c == 32
    || c == 133
    || c == 160
    || c == 5760
    || (leb 8192 c && leb c 8202)
    || c == 8232
    || c == 8233
    || c == 8239
    || c == 8287
    || c == 12288

-- `trim_start_matches` and `trim_matches` of a class of characters.
unfoldable pub trim_start_matches : (ℕ → Bool) → Text → Text
trim_start_matches p [] = []
trim_start_matches p (c ∷ cs) = let rest = trim_start_matches p cs in if p c then rest else c ∷ cs

unfoldable pub trim_matches : (ℕ → Bool) → Text → Text
unfolding trim_start_matches
trim_matches p t = reverse (trim_start_matches p (reverse (trim_start_matches p t)))

-- `trim`.
unfoldable pub trim : Text → Text
unfolding trim_matches is_whitespace
trim t = trim_matches is_whitespace t

-- `split` on a character: the parts, of which there is at least one.
abbrev pub grow_first : ℕ → List Text → List Text
grow_first c [] = (c ∷ []) ∷ []
grow_first c (s ∷ ss) = (c ∷ s) ∷ ss

unfoldable pub split : ℕ → Text → List Text
split sep [] = [] ∷ []
split sep (c ∷ cs) = let rest = split sep cs in if c == sep then [] ∷ rest else grow_first c rest

-- `join` with a character.
unfoldable pub join : ℕ → List Text → Text
join sep [] = []
join sep (s ∷ []) = s
join sep (s ∷ (t ∷ ts)) = s ++ sep ∷ join sep (t ∷ ts)

-- `find` of a substring: the position of its first occurrence.
unfoldable pub find : Text → Text → Option ℕ
unfolding starts_with
find p [] = if starts_with p [] then some 0 else none
find p (c ∷ cs) =
    let later = find p cs in if starts_with p (c ∷ cs) then some 0 else Option.map suc later

abbrev after_first : ℕ → Option (Text × Text) → Option (Text × Text)
after_first c none = none
after_first c (some (before, rest)) = some (c ∷ before, rest)

-- `split_once` at a substring: what stands before and after its first occurrence.
unfoldable pub split_once : Text → Text → Option (Text × Text)
unfolding strip_prefix
split_once p [] = Option.map (λ rest. ([], rest)) (strip_prefix p [])
split_once p (c ∷ cs) =
    let later = after_first c (split_once p cs) in
    elim (strip_prefix p (c ∷ cs)) [ some rest ↦ some ([], rest) | none ↦ later ]

-- `rsplitn(2, sep)`: what stands before and after the last separator.
unfoldable pub rsplit_once : ℕ → Text → Option (Text × Text)
rsplit_once sep [] = none
rsplit_once sep (c ∷ cs) = elim (rsplit_once sep cs) [
  | some (before, rest) ↦ some (c ∷ before, rest)
  | none ↦ if c == sep then some ([], cs) else none
]
