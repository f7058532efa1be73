-- ===== src/Access/Pattern/Plain.antt =====
-- crates/zann-server/src/domains/access_control/http.rs: `matches_pattern` for a pattern without `*`.
use mathlib.Core.List.{reverse-cons}
use zann.Base.{
  ℕ, suc, ◌≡◌, refl, ◌∙◌, ap, true, false, ◌||◌, ◌&&◌, Bool-cases, inl, inr, ◌⊎◌, none, some,
  Option-cases, [], ◌∷◌, ◌++◌, Text, codes, text_eq, text_eq→eq, is_empty, has_char, split, find,
  starts_with, ends_with, reverse, arith, ◌==◌,
}
use zann.Access.Pattern.{matches_pattern}

split_plain : (sep : ℕ) (t : Text) → has_char sep t ≡ false → split sep t ≡ t ∷ []
unfolding split
split_plain sep [] h = refl
split_plain sep (c ∷ cs) h = ground (arith, h, split_plain sep cs)

find_start : (p v : Text) → starts_with p v ≡ true → find p v ≡ some 0
unfolding find
find_start p [] h = rw h refl
find_start p (c ∷ cs) h = rw h refl

find_later :
    (p v : Text)
    → starts_with p v ≡ false
    → (find p v ≡ none) ⊎ ((k : ℕ) × (find p v ≡ some (suc k)))
unfolding find
find_later p [] h = rw h (inl refl)
find_later p (c ∷ cs) h = elim (Option-cases (find p cs)) [
  | inl n ↦ rw (h, n) (inl refl)
  | inr (k, e) ↦ rw (h, e) (inr (k, refl))
]

has_char-append : (c : ℕ) (xs ys : Text) → has_char c (xs ++ ys) ≡ has_char c xs || has_char c ys
has_char-append c [] ys = refl
has_char-append c (x ∷ xs) ys = ground (arith, has_char-append c xs ys)

has_char-reverse : (c : ℕ) (t : Text) → has_char c (reverse t) ≡ has_char c t
has_char-reverse c [] = refl
has_char-reverse c (x ∷ xs) =
    ap (has_char c) (reverse-cons x xs)
    ∙ (has_char-append c (reverse xs) (x ∷ []) ∙ ground (arith, has_char-reverse c xs))

starts_char : (c : ℕ) (t : Text) → has_char c t ≡ false → starts_with (c ∷ []) t ≡ false
unfolding starts_with
starts_char c [] h = refl
starts_char c (x ∷ xs) h = ground (arith, h)

module _ (p : Text) (plain : has_char b'*' p ≡ false) where
  not_star : text_eq p (codes "*") ≡ false
  not_star = elim (Bool-cases (text_eq p (codes "*"))) [
    | inl e ↦ absurd (ground (arith, ap (has_char b'*') (text_eq→eq p (codes "*") e), plain))
    | inr e ↦ e
  ]

  not_stars : text_eq p (codes "**") ≡ false
  not_stars = elim (Bool-cases (text_eq p (codes "**"))) [
    | inl e ↦ absurd (ground (arith, ap (has_char b'*') (text_eq→eq p (codes "**") e), plain))
    | inr e ↦ e
  ]

  not_ending : ends_with (codes "*") p ≡ false
  unfolding ends_with
  not_ending = starts_char b'*' (reverse p) (has_char-reverse b'*' p ∙ plain)

  not_starting : starts_with (codes "*") p ≡ false
  not_starting = starts_char b'*' p plain

positive : (k : ℕ) → (suc k == 0) ≡ false
positive k = ground arith

-- A pattern with no `*` in it matches exactly the values that start with it and end with it: its own
-- text, but also any text between two copies of it.
pub matches_pattern-plain :
    (p v : Text)
    → has_char b'*' p ≡ false
    → is_empty p ≡ false
    → matches_pattern p v ≡ starts_with p v && ends_with p v
unfolding matches_pattern
matches_pattern-plain p v plain nonempty = elim (Bool-cases (starts_with p v)) [
  | inl s ↦
      rw
        (
          not_star p plain,
          not_stars p plain,
          split_plain b'*' p plain,
          nonempty,
          find_start p v s,
          not_starting p plain,
          not_ending p plain,
          s,
        )
        (rw (split_plain b'*' p plain, nonempty) refl)
  | inr s ↦ elim (find_later p v s) [
    | inl n ↦
        rw (not_star p plain, not_stars p plain, split_plain b'*' p plain, nonempty, n, s) refl
    | inr (k, e) ↦
        rw
          (
            not_star p plain,
            not_stars p plain,
            split_plain b'*' p plain,
            nonempty,
            e,
            not_starting p plain,
            positive k,
            s,
          )
          refl
  ]
]
