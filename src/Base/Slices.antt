-- ===== src/Base/Slices.antt =====
-- Prefixes and rests of lists.
use Prim.Native.Nat.{ℕ, zero, suc, ◌-◌, ◌≤◌}
use mathlib.Core.Path.{◌≡◌, refl, ap}
use mathlib.Core.Logic.{inl, inr}
use mathlib.Core.Bool.{Bool, false}
use mathlib.Core.List.{List, [], ◌∷◌}
use native.Mathlib.Omega.{arith}
use zann.Base.Tests.{ltb, Bool-cases}
use zann.Base.Lists.{length, take, drop, keep, All}

module _ {A : Type 0} where
  pub All-keep : (P : A → Type 0) (p : A → Bool) (rows : List A) → All P rows → All P (keep p rows)
  All-keep P p [] h = tt
  All-keep P p (r ∷ rs) h = elim (Bool-cases (p r)) [
    | inl e ↦ rw e (h.0, All-keep P p rs h.1)
    | inr e ↦ rw e (All-keep P p rs h.1)
  ]

  pub All-take : (P : A → Type 0) (k : ℕ) (rows : List A) → All P rows → All P (take k rows)
  All-take P zero rows h = tt
  All-take P (suc k) [] h = tt
  All-take P (suc k) (r ∷ rs) h = (h.0, All-take P k rs h.1)

  pub take-take : (k : ℕ) (rows : List A) → take k (take (suc k) rows) ≡ take k rows
  take-take zero rows = refl
  take-take (suc k) [] = refl
  take-take (suc k) (r ∷ rs) = ap (λ x. r ∷ x) (take-take k rs)

  pub longer_drop :
      (k : ℕ) (rows : List A) → ltb k (length (take (suc k) rows)) ≡ ltb 0 (length (drop k rows))
  longer_drop zero [] = refl
  longer_drop zero (r ∷ rs) = ground arith
  longer_drop (suc k) [] = ground arith
  longer_drop (suc k) (r ∷ rs) = let ih = longer_drop k rs in ground (arith, ih)

  pub length-drop-le : (k : ℕ) (rows : List A) → length (drop k rows) ≤ length rows - k
  length-drop-le zero rows = omega arith
  length-drop-le (suc k) [] = omega arith
  length-drop-le (suc k) (r ∷ rs) = omega (arith, length-drop-le k rs)

  pub take-whole :
      (k : ℕ) (rows : List A) → ltb 0 (length (drop k rows)) ≡ false → take k rows ≡ rows
  take-whole zero [] e = refl
  take-whole zero (r ∷ rs) e = ground (arith, e)
  take-whole (suc k) [] e = refl
  take-whole (suc k) (r ∷ rs) e = ap (λ x. r ∷ x) (take-whole k rs e)
