-- ===== src/Auth/Keyed.antt =====
-- crates/zann-server/src/domains/auth: sessions are told apart by their ids and by their tokens.
use mathlib.Core.Path.{subst}
use zann.Base.{
  ℕ, ◌≡◌, ◌≢◌, refl, sym, ◌∙◌, ap, Bool, true, false, Bool-cases, inl, inr, none, some, List, [],
  ◌∷◌, Text, text_eq, text_eq→eq, text_eq_refl, find_first, map, All, arith, ◌==◌, if◌then◌else◌,
}
use zann.Core.Structs.{Session}

abbrev pub Differs : Session → Session → Type 0
Differs x y =
    (y.id ≢ x.id)
    × (y.access_token_hash ≢ x.access_token_hash)
    × (y.refresh_token_hash ≢ x.refresh_token_hash)

-- The primary key of the sessions, and fresh tokens under a hash without collisions.
abbrev pub Keyed : List Session → Type 0
Keyed [] = Unit
Keyed (x ∷ xs) = All (Differs x) xs × Keyed xs

pub text_ne : (s t : Text) → s ≢ t → text_eq s t ≡ false
text_ne s t h = elim (Bool-cases (text_eq s t)) [
  | inl e ↦ absurd (h (text_eq→eq s t e))
  | inr e ↦ e
]

pub text_apart : (s t : Text) → text_eq s t ≡ false → s ≢ t
text_apart s t e same =
    let equal : text_eq s t ≡ true = subst (λ u. text_eq s u ≡ true) same (text_eq_refl s) in
    ground (arith, e, equal)

pub some-inj : {A : Type 0} (a b : A) → some a ≡ some b → a ≡ b
some-inj a b e = cc

pub All-map :
    (P Q : Session → Type 0) (xs : List Session) → ((x : Session) → P x → Q x) → All P xs → All Q xs
All-map P Q [] f h = tt
All-map P Q (x ∷ xs) f h = (f x h.0, All-map P Q xs f h.1)

-- What is found passes the test.
pub find_first-test :
    {A : Type 0} (p : A → Bool) (xs : List A) (s : A) → find_first p xs ≡ some s → p s ≡ true
find_first-test p [] s e = cc
find_first-test p (x ∷ xs) s e = elim (Bool-cases (p x)) [
  | inl k ↦ subst (λ y. p y ≡ true) (some-inj x s (rw k at e)) k
  | inr k ↦ find_first-test p xs s (rw k at e)
]

-- What is found has what all have.
pub All-find :
    {A : Type 0} (P : A → Type 0) (p : A → Bool) (xs : List A) (s : A)
    → All P xs
    → find_first p xs ≡ some s
    → P s
All-find P p [] s h e = cc
All-find P p (x ∷ xs) s h e = elim (Bool-cases (p x)) [
  | inl k ↦ subst P (some-inj x s (rw k at e)) h.0
  | inr k ↦ All-find P p xs s h.1 (rw k at e)
]

module _ (key : Session → Text) (differs : (x y : Session) → Differs x y → key y ≢ key x) (id : ℕ)
    (change : Session → Session) where
  -- `UPDATE … WHERE id = $1`.
  abbrev pub changed : Session → Session
  changed x = if x.id == id then change x else x

  absent :
      (x : Session) (xs : List Session)
      → x.id ≡ id
      → All (Differs x) xs
      → find_first (λ y. text_eq (key y) (key x)) (map changed xs) ≡ none
  absent x [] same h = refl
  absent x (y ∷ ys) same h =
      let other : (y.id == id) ≡ false = ground (arith, same, h.0.0) in
      rw (other, text_ne (key y) (key x) (differs x y h.0)) (absent x ys same h.1)

  -- The old key of the changed session is gone.
  pub find-old :
      (p : Session → Bool) (xs : List Session) (s : Session)
      → Keyed xs
      → find_first p xs ≡ some s
      → s.id ≡ id
      → key (change s) ≢ key s
      → find_first (λ y. text_eq (key y) (key s)) (map changed xs) ≡ none
  find-old p [] s keyed e same ne = refl
  find-old p (x ∷ xs) s keyed e same ne = elim (Bool-cases (p x)) [
    | inl k ↦
        let at_head : x ≡ s = some-inj x s (rw k at e) in
        let mine : (x.id == id) ≡ true = ground (arith, same, ap (λ (y : Session). y.id) at_head) in
        let new : text_eq (key (change x)) (key s) ≡ false =
          text_ne (key (change x)) (key s) (λ q. ne (ap (λ y. key (change y)) (sym at_head) ∙ q)) in
        rw (mine, new)
          (subst (λ y. find_first (λ z. text_eq (key z) (key y)) (map changed xs) ≡ none) at_head
            (absent x xs (ap (λ (y : Session). y.id) at_head ∙ same) keyed.0))
    | inr k ↦
        let later : find_first p xs ≡ some s = rw k at e in
        let apart = All-find (Differs x) p xs s keyed.0 later in
        let other : (x.id == id) ≡ false = ground (arith, same, apart.0) in
        let ne_key : text_eq (key x) (key s) ≡ false =
          text_ne (key x) (key s) (λ q. differs x s apart (sym q)) in
        rw (other, ne_key) (find-old p xs s keyed.1 later same ne)
  ]

  -- Its new key finds it.
  pub find-new :
      (p : Session → Bool) (xs : List Session) (s : Session)
      → Keyed xs
      → find_first p xs ≡ some s
      → s.id ≡ id
      → All (λ y. key y ≢ key (change s)) xs
      → find_first (λ y. text_eq (key y) (key (change s))) (map changed xs) ≡ some (change s)
  find-new p [] s keyed e same fresh = cc
  find-new p (x ∷ xs) s keyed e same fresh = elim (Bool-cases (p x)) [
    | inl k ↦
        let at_head : x ≡ s = some-inj x s (rw k at e) in
        let mine : (s.id == id) ≡ true = ground (arith, same) in
        rw (at_head, mine, text_eq_refl (key (change s))) refl
    | inr k ↦
        let later : find_first p xs ≡ some s = rw k at e in
        let apart = All-find (Differs x) p xs s keyed.0 later in
        let other : (x.id == id) ≡ false = ground (arith, same, apart.0) in
        rw (other, text_ne (key x) (key (change s)) fresh.0)
          (find-new p xs s keyed.1 later same fresh.1)
  ]
