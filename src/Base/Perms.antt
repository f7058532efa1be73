-- ===== src/Base/Perms.antt =====
-- What does not depend on the order of a list.
use Prim.Native.Nat.{ℕ}
use mathlib.Core.Path.{◌≡◌, refl, ◌∙◌}
use mathlib.Core.Logic.{inl, inr, ∥∥₁_elim}
use mathlib.Core.Bool.{Bool, ◌||◌, ◌&&◌}
use mathlib.Core.List.{List, ◌∷◌, Perm, Permᴰ}
use native.Mathlib.Omega.{arith}
use zann.Base.Tests.{Bool-cases}
use zann.Base.Lists.{length, keep, any, all}

or_swap : (a b c : Bool) → (a || (b || c)) ≡ (b || (a || c))
or_swap a b c = ground arith

and_swap : (a b c : Bool) → (a && (b && c)) ≡ (b && (a && c))
and_swap a b c = ground arith

length-permᴰ {ℓ} : {A : Type ℓ} {xs ys : List A} → Permᴰ xs ys → length xs ≡ length ys
length-permᴰ Permᴰ.nil = refl
length-permᴰ (Permᴰ.cons e h) = rw (length-permᴰ h)
length-permᴰ (Permᴰ.swap e f) = refl
length-permᴰ (Permᴰ.trans h k) = length-permᴰ h ∙ length-permᴰ k

pub any-permᴰ {ℓ} : {A : Type ℓ} (p : A → Bool) {xs ys : List A} → Permᴰ xs ys → any p xs ≡ any p ys
any-permᴰ p Permᴰ.nil = refl
any-permᴰ p (Permᴰ.cons e h) = rw (e, any-permᴰ p h)
any-permᴰ p (Permᴰ.swap {a' = x} {b' = y} {l = l} e f) = rw (e, f) (or_swap (p y) (p x) (any p l))
any-permᴰ p (Permᴰ.trans h k) = any-permᴰ p h ∙ any-permᴰ p k

all-permᴰ {ℓ} : {A : Type ℓ} (p : A → Bool) {xs ys : List A} → Permᴰ xs ys → all p xs ≡ all p ys
all-permᴰ p Permᴰ.nil = refl
all-permᴰ p (Permᴰ.cons e h) = rw (e, all-permᴰ p h)
all-permᴰ p (Permᴰ.swap {a' = x} {b' = y} {l = l} e f) = rw (e, f) (and_swap (p y) (p x) (all p l))
all-permᴰ p (Permᴰ.trans h k) = all-permᴰ p h ∙ all-permᴰ p k

nat-set : IsSet ℕ
nat-set = hlevel

bool-set : IsSet Bool
bool-set = hlevel

pub length-perm {ℓ} : {A : Type ℓ} {xs ys : List A} → Perm xs ys → length xs ≡ length ys
length-perm h = ∥∥₁_elim h (nat-set _ _) λ p. length-permᴰ p

pub any-perm {ℓ} : {A : Type ℓ} (p : A → Bool) {xs ys : List A} → Perm xs ys → any p xs ≡ any p ys
any-perm p h = ∥∥₁_elim h (bool-set _ _) λ d. any-permᴰ p d

pub all-perm {ℓ} : {A : Type ℓ} (p : A → Bool) {xs ys : List A} → Perm xs ys → all p xs ≡ all p ys
all-perm p h = ∥∥₁_elim h (bool-set _ _) λ d. all-permᴰ p d

keep-swap {ℓ} :
    {A : Type ℓ} (p : A → Bool) (x y : A) (xs : List A)
    → length (keep p (x ∷ (y ∷ xs))) ≡ length (keep p (y ∷ (x ∷ xs)))
keep-swap p x y xs = elim (Bool-cases (p x)) [
  | inl h ↦ elim (Bool-cases (p y)) [ inl k ↦ rw (h, k) refl | inr k ↦ rw (h, k) refl ]
  | inr h ↦ elim (Bool-cases (p y)) [ inl k ↦ rw (h, k) refl | inr k ↦ rw (h, k) refl ]
]

length-keep-permᴰ {ℓ} :
    {A : Type ℓ} (p : A → Bool) {xs ys : List A}
    → Permᴰ xs ys
    → length (keep p xs) ≡ length (keep p ys)
length-keep-permᴰ p Permᴰ.nil = refl
length-keep-permᴰ p (Permᴰ.cons e h) = ground (arith, e, length-keep-permᴰ p h)
length-keep-permᴰ p (Permᴰ.swap {a' = x} {b' = y} {l = l} e f) = rw (e, f) (keep-swap p y x l)
length-keep-permᴰ p (Permᴰ.trans h k) = length-keep-permᴰ p h ∙ length-keep-permᴰ p k

pub length-keep-perm {ℓ} :
    {A : Type ℓ} (p : A → Bool) {xs ys : List A}
    → Perm xs ys
    → length (keep p xs) ≡ length (keep p ys)
length-keep-perm p h = ∥∥₁_elim h (nat-set _ _) λ d. length-keep-permᴰ p d
