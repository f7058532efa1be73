-- ===== src/Rotation/Strong.antt =====
-- crates/zann-server/src/domains/vaults/http/v1/shared/helpers.rs: the passwords that
-- `generate_password` makes.
use mathlib.Core.List.{Perm}
use native.Mathlib.Nat.{mod-lt}
use zann.Base.{
  ℕ, zero, suc, ◌%◌, ◌<◌, ◌≡◌, refl, ◌∙◌, Bool, true, false, none, some, [], ◌∷◌, ◌++◌, Text, codes,
  text_eq, has_char, length, any, all, length-perm, any-perm, all-perm, ok, err, ok_or, ap, arith,
}
use zann.Rotation.Password.{
  Choices, upper, lower, digits, symbols, charset, get_elem?, choose, choose_many, default_password,
  generate_password,
}

pub get_elem?-lt :
    (xs : Text) (n : ℕ)
    → n < length xs
    → (x : ℕ) × ((get_elem? xs n ≡ some x) × (has_char x xs ≡ true))
get_elem?-lt [] n h = absurd (omega (arith, h))
get_elem?-lt (y ∷ ys) zero h = (y, (refl, ground arith))
get_elem?-lt (y ∷ ys) (suc n) h =
    let rest = get_elem?-lt ys n (omega (arith, h)) in
    (rest.0, (rest.1.0, ground (arith, rest.1.1)))

choose-ok :
    (choices : Choices) (i : ℕ) (set : Text)
    → 0 < length set
    → (x : ℕ) × ((choose choices i set ≡ ok x) × (has_char x set ≡ true))
choose-ok choices i [] h = absurd (omega (arith, h))
choose-ok choices i (c ∷ cs) h =
    let found =
      get_elem?-lt (c ∷ cs) (choices.index i % suc (length cs)) (mod-lt (choices.index i) h) in
    (found.0, (ap (λ o. ok_or o "invalid_policy") found.1.0, found.1.1))

choose_many-ok :
    (choices : Choices) (i n : ℕ) (set : Text)
    → 0 < length set
    → (cs : Text) × ((choose_many choices i n set ≡ ok cs)
        × (length cs ≡ n)
        × (all (λ c. has_char c set) cs ≡ true))
unfolding choose_many
choose_many-ok choices i zero set h = ([], (refl, refl, refl))
choose_many-ok choices i (suc n) set h =
    let c = choose-ok choices i set h in
    let cs = choose_many-ok choices (suc i) n set h in
    (c.0 ∷ cs.0, (rw (c.1.0, cs.1.0), ap suc cs.1.1, rw (c.1.1, cs.1.2)))

in_left : (c : ℕ) (s t : Text) → has_char c s ≡ true → has_char c (s ++ t) ≡ true
in_left c [] t h = cc
in_left c (x ∷ s) t h = ground (arith, in_left c s t)

in_right : (c : ℕ) (s t : Text) → has_char c t ≡ true → has_char c (s ++ t) ≡ true
in_right c [] t h = h
in_right c (x ∷ s) t h = ground (arith, in_right c s t h)

any-append :
    (p : ℕ → Bool) (before : Text) (c : ℕ) (after : Text)
    → p c ≡ true
    → any p (before ++ (c ∷ after)) ≡ true
any-append p [] c after h = rw h refl
any-append p (x ∷ before) c after h = ground (arith, any-append p before c after h)

all-cons : (p : ℕ → Bool) (c : ℕ) (cs : Text) → p c ≡ true → all p cs ≡ true → all p (c ∷ cs) ≡ true
all-cons p c cs h k = rw (h, k) refl

abbrev alphabet : Text
alphabet = upper ++ (lower ++ (digits ++ symbols))

pub record IsStrong (password : Text) : Type 0 where
  pub size : length password ≡ 24
  pub from_alphabet : all (λ c. has_char c alphabet) password ≡ true
  pub has_upper : any (λ c. has_char c upper) password ≡ true
  pub has_lower : any (λ c. has_char c lower) password ≡ true
  pub has_digit : any (λ c. has_char c digits) password ≡ true
  pub has_symbol : any (λ c. has_char c symbols) password ≡ true

IsStrong-perm : (s t : Text) → Perm s t → IsStrong t → IsStrong s
IsStrong-perm s t h strong = record {
  size = length-perm h ∙ strong.size;
  from_alphabet = all-perm (λ c. has_char c alphabet) h ∙ strong.from_alphabet;
  has_upper = any-perm (λ c. has_char c upper) h ∙ strong.has_upper;
  has_lower = any-perm (λ c. has_char c lower) h ∙ strong.has_lower;
  has_digit = any-perm (λ c. has_char c digits) h ∙ strong.has_digit;
  has_symbol = any-perm (λ c. has_char c symbols) h ∙ strong.has_symbol;
}

one_of_each :
    (u l d s : ℕ) (rest : Text)
    → has_char u upper ≡ true
    → has_char l lower ≡ true
    → has_char d digits ≡ true
    → has_char s symbols ≡ true
    → length rest ≡ 20
    → all (λ c. has_char c alphabet) rest ≡ true
    → IsStrong (u ∷ (l ∷ (d ∷ (s ∷ rest))))
one_of_each u l d s rest hu hl hd hs size rest_in =
    let p = λ (c : ℕ). has_char c alphabet in
    let after_upper = lower ++ (digits ++ symbols) in
    let in_u = in_left u upper after_upper hu in
    let in_l = in_right l upper after_upper (in_left l lower (digits ++ symbols) hl) in
    let in_d =
      in_right d upper after_upper
        (in_right d lower (digits ++ symbols) (in_left d digits symbols hd)) in
    let in_s =
      in_right s upper after_upper
        (in_right s lower (digits ++ symbols) (in_right s digits symbols hs)) in
    record {
      size = omega (arith, size);
      from_alphabet = all-cons p u (l ∷ (d ∷ (s ∷ rest))) in_u (
          all-cons p l (d ∷ (s ∷ rest)) in_l
            (all-cons p d (s ∷ rest) in_d (all-cons p s rest in_s rest_in)));
      has_upper = any-append (λ c. has_char c upper) [] u (l ∷ (d ∷ (s ∷ rest))) hu;
      has_lower = any-append (λ c. has_char c lower) (u ∷ []) l (d ∷ (s ∷ rest)) hl;
      has_digit = any-append (λ c. has_char c digits) (u ∷ (l ∷ [])) d (s ∷ rest) hd;
      has_symbol = any-append (λ c. has_char c symbols) (u ∷ (l ∷ (d ∷ []))) s rest hs;
    }

default_password-IsStrong :
    (choices : Choices)
    → ((t : Text) → Perm (choices.shuffle t) t)
    → (password : Text) × ((default_password choices ≡ ok password) × IsStrong password)
unfolding default_password
default_password-IsStrong choices shuffled =
    let u = choose-ok choices 0 upper (omega arith) in
    let l = choose-ok choices 1 lower (omega arith) in
    let d = choose-ok choices 2 digits (omega arith) in
    let s = choose-ok choices 3 symbols (omega arith) in
    let rest = choose_many-ok choices 4 20 alphabet (omega arith) in
    let cs = u.0 ∷ (l.0 ∷ (d.0 ∷ (s.0 ∷ rest.0))) in
    (
      choices.shuffle cs,
      (
        rw (u.1.0, l.1.0, d.1.0, s.1.0, rest.1.0) refl,
        IsStrong-perm (choices.shuffle cs) cs (shuffled cs)
            (one_of_each u.0 l.0 d.0 s.0 rest.0 u.1.1 l.1.1 d.1.1 s.1.1 rest.1.1 rest.1.2),
      ),
    )

-- When shuffling permutes its argument, a password is made without a policy, and it is strong: it
-- has 24 characters of the alphabet, with an upper-case letter, a lower-case letter, a digit and a
-- symbol among them. So is one for the policy "default". For the policy "alnum" one is made of 24
-- characters of its set, and for a policy of another name the result is the error "invalid_policy".
pub generate_password-IsStrong :
    (choices : Choices) (other : Text)
    → ((t : Text) → Perm (choices.shuffle t) t)
    → text_eq other (codes "default") ≡ false
    → text_eq other (codes "alnum") ≡ false
    → ((password : Text) × ((generate_password choices none ≡ ok password)
          × (generate_password choices (some (codes "default")) ≡ ok password)
          × IsStrong password))
      × ((password : Text) × ((generate_password choices (some (codes "alnum")) ≡ ok password)
            × (length password ≡ 24)
            × (all (λ c. has_char c charset) password ≡ true)))
      × (generate_password choices (some other) ≡ err "invalid_policy")
unfolding generate_password text_eq
generate_password-IsStrong choices other shuffled no_default no_alnum =
    let strong = default_password-IsStrong choices shuffled in
    let alnum = choose_many-ok choices 0 24 charset (omega arith) in
    (
      (strong.0, (strong.1.0, strong.1.0, strong.1.1)),
      (alnum.0, alnum.1),
      rw (no_default, no_alnum) refl,
    )
