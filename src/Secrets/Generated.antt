-- ===== src/Secrets/Generated.antt =====
-- crates/zann-server/src/domains/secrets/policies.rs: what `generate_secret` makes of a valid policy.
use mathlib.Core.List.{Perm}
use native.Mathlib.Nat.{mod-lt}
use zann.Base.{
  ℕ, zero, suc, ◌+◌, ◌-◌, ◌%◌, ◌<◌, ◌≤◌, ◌≡◌, refl, ◌∙◌, ap, Bool, true, false, ◌⊎◌, inl, inr, min,
  [], ◌∷◌, ◌++◌, Text, String, is_empty, trim, trim_matches, trim_start_matches, has_char, length,
  length-append, keep, ltb, ◌==◌, length-perm, length-keep-perm, guard-ok, Result, ok, err,
  if◌then◌else◌, arith,
}
use zann.Rotation.Password.{Choices}
use zann.Rotation.Strong.{get_elem?-lt}
use zann.Secrets.Policies.{
  PasswordPolicy, symbol_set, validate, lowercase, uppercase, digits, choose_each, pool_of, fill,
  generate_secret,
}

-- How many characters of a text are in a set.
abbrev pub count : Text → Text → ℕ
count set text = length (keep (λ c. has_char c set) text)

count-append : (set s t : Text) → count set (s ++ t) ≡ count set s + count set t
count-append set [] t = omega arith
count-append set (c ∷ s) t = ground (arith, count-append set s t)

record Drawn (set : Text) (n : ℕ) (r : Result String Text) : Type 0 where
  text : Text
  made : r ≡ ok text
  size : length text ≡ n
  counted : count set text ≡ n

choose_each-Drawn :
    (choices : Choices) (empty : String) (i n : ℕ) (set : Text)
    → (0 < n → 0 < length set)
    → Drawn set n (choose_each choices empty i n set)
unfolding choose_each
choose_each-Drawn choices empty i zero set h = record {
  text = [];
  made = refl;
  size = refl;
  counted = refl;
}
choose_each-Drawn choices empty i (suc n) [] h = absurd (omega (arith, h (omega arith)))
choose_each-Drawn choices empty i (suc n) (c ∷ cs) h =
    let rest = choose_each-Drawn choices empty (suc i) n (c ∷ cs) (λ k. omega arith) in
    let found =
      get_elem?-lt (c ∷ cs) (choices.index i % suc (length cs))
        (mod-lt (choices.index i) (omega arith)) in
    record {
      text = found.0 ∷ rest.text;
      made = rw (found.1.0, rest.made) refl;
      size = ap suc rest.size;
      counted = rw (found.1.1) (ap suc rest.counted);
    }

nonempty : (s : Text) → is_empty s ≡ false → 0 < length s
nonempty [] e = cc
nonempty (c ∷ s) e = omega arith

trim-nonempty : (s : Text) → is_empty (trim s) ≡ false → 0 < length s
unfolding trim trim_matches trim_start_matches
trim-nonempty [] e = cc
trim-nonempty (c ∷ s) e = omega arith

inner-guard :
    (b e : Bool) (x : String)
    → ◌≡◌ {A = Result String (Unit {0})} (if b then (if e then err x else ok tt) else ok tt) (ok tt)
    → b ≡ true
    → e ≡ false
inner-guard true true x h k = cc
inner-guard true false x h k = refl
inner-guard false e x h k = cc

-- How many characters a policy asks for.
unfoldable pub total : PasswordPolicy → ℕ
total policy = policy.min_lowercase + policy.min_uppercase + policy.min_digits + policy.min_symbols

record Valid (policy : PasswordPolicy) : Type 0 where
  minima : total policy ≤ policy.length
  symbols : 0 < policy.min_symbols → 0 < length (symbol_set policy)

validate-Valid :
    (policy : PasswordPolicy)
    → policy.length < 18446744073709551615
    → validate policy ≡ ok tt
    → Valid policy
unfolding validate total
validate-Valid policy small e =
    let some_length = guard-ok (policy.length == 0) _ _ tt e in
    let minima = guard-ok (ltb policy.length _) _ _ tt some_length.1 in
    record {
      minima = ground (arith, minima.0, small);
      symbols = λ h. trim-nonempty (symbol_set policy) (
          inner-guard (ltb 0 policy.min_symbols) (is_empty (trim (symbol_set policy)))
            "policy_symbols_empty" minima.1 (ground (arith, h)));
    }

part-length :
    (n : ℕ) (s : Text) → (0 < n → 0 < length s) → min n 1 ≤ length (if ltb 0 n then s else [])
part-length zero s h = omega arith
part-length (suc n) s h = let k = h (omega arith) in grind (arith, k)

four-length :
    (a b c d : Text) → length (a ++ (b ++ (c ++ d))) ≡ length a + (length b + (length c + length d))
four-length a b c d =
    omega (arith, length-append a (b ++ (c ++ d)), length-append b (c ++ d), length-append c d)

pool_of-nonempty :
    (policy : PasswordPolicy) → Valid policy → 0 < total policy → 0 < length (pool_of policy)
unfolding pool_of total
pool_of-nonempty policy valid some_minimum =
    let l = if ltb 0 policy.min_lowercase then lowercase else [] in
    let u = if ltb 0 policy.min_uppercase then uppercase else [] in
    let d = if ltb 0 policy.min_digits then digits else [] in
    let s = if ltb 0 policy.min_symbols then symbol_set policy else [] in
    let size : length (pool_of policy) ≡ length l + (length u + (length d + length s)) =
      four-length l u d s in
    let positive : 0
        < policy.min_lowercase + policy.min_uppercase + policy.min_digits + policy.min_symbols =
      some_minimum in
    omega (
      arith,
      positive,
      size,
      part-length policy.min_lowercase lowercase (λ h. omega arith),
      part-length policy.min_uppercase uppercase (λ h. omega arith),
      part-length policy.min_digits digits (λ h. omega arith),
      part-length policy.min_symbols (symbol_set policy) valid.symbols,
    )

nonempty-false : (s : Text) → 0 < length s → is_empty s ≡ false
nonempty-false [] h = absurd (omega (arith, h))
nonempty-false (c ∷ s) h = refl

fill-ok :
    (choices : Choices) (policy : PasswordPolicy) (result : Text)
    → 0 < length (pool_of policy)
    → (rest : Text) × ((fill choices policy result ≡ ok (choices.shuffle (result ++ rest)))
        × (length rest ≡ policy.length - length result))
unfolding fill
fill-ok choices policy result h =
    let rest =
      choose_each-Drawn choices "policy_empty_charset" (length result)
        (policy.length - length result) (pool_of policy) (λ k. h) in
    (rest.text, (rw (nonempty-false (pool_of policy) h, rest.made) refl, rest.size))

pub record IsGenerated (policy : PasswordPolicy) (secret : Text) : Type 0 where
  pub size : length secret ≡ policy.length
  pub lowercase_count : policy.min_lowercase ≤ count lowercase secret
  pub uppercase_count : policy.min_uppercase ≤ count uppercase secret
  pub digit_count : policy.min_digits ≤ count digits secret
  pub symbol_count : policy.min_symbols ≤ count (symbol_set policy) secret

five-count :
    (set a b c d e : Text)
    → count set ((a ++ (b ++ (c ++ d))) ++ e)
      ≡ count set a + (count set b + (count set c + count set d)) + count set e
five-count set a b c d e = omega (
  arith,
  count-append set (a ++ (b ++ (c ++ d))) e,
  count-append set a (b ++ (c ++ d)),
  count-append set b (c ++ d),
  count-append set c d,
)

generate_secret-made :
    (choices : Choices) (policy : PasswordPolicy)
    → ((t : Text) → Perm (choices.shuffle t) t)
    → validate policy ≡ ok tt
    → Valid policy
    → 0 < total policy
    → (secret : Text) × ((generate_secret choices policy ≡ ok secret) × IsGenerated policy secret)
unfolding generate_secret total
generate_secret-made choices policy shuffled e valid some_minimum =
    let l =
      choose_each-Drawn choices "policy_lowercase_empty" 0 policy.min_lowercase lowercase
        (λ k. omega arith) in
    let u =
      choose_each-Drawn choices "policy_uppercase_empty" policy.min_lowercase policy.min_uppercase
        uppercase (λ k. omega arith) in
    let d =
      choose_each-Drawn choices "policy_digits_empty" (policy.min_lowercase + policy.min_uppercase)
        policy.min_digits digits (λ k. omega arith) in
    let s =
      choose_each-Drawn choices "policy_symbols_empty"
        (policy.min_lowercase + policy.min_uppercase + policy.min_digits) policy.min_symbols
        (symbol_set policy) valid.symbols in
    let result = l.text ++ (u.text ++ (d.text ++ s.text)) in
    let rest = fill-ok choices policy result (pool_of-nonempty policy valid some_minimum) in
    let minima : policy.min_lowercase + policy.min_uppercase + policy.min_digits
          + policy.min_symbols
        ≤ policy.length =
      valid.minima in
    let counted = λ (set : Text).
      length-keep-perm (λ c. has_char c set) (shuffled (result ++ rest.0))
      ∙ five-count set l.text u.text d.text s.text rest.0 in
    (
      choices.shuffle (result ++ rest.0),
      (
        rw (e, l.made, u.made, d.made, s.made, rest.1.0) refl,
        record {
          size =
              length-perm (shuffled (result ++ rest.0))
              ∙ omega (
                arith,
                length-append result rest.0,
                four-length l.text u.text d.text s.text,
                rest.1.1,
                l.size,
                u.size,
                d.size,
                s.size,
                minima,
              );
          lowercase_count = omega (arith, counted lowercase, l.counted);
          uppercase_count = omega (arith, counted uppercase, u.counted);
          digit_count = omega (arith, counted digits, d.counted);
          symbol_count = omega (arith, counted (symbol_set policy), s.counted);
        },
      ),
    )

generate_secret-none :
    (choices : Choices) (policy : PasswordPolicy)
    → validate policy ≡ ok tt
    → total policy ≡ 0
    → generate_secret choices policy ≡ err "policy_empty_charset"
unfolding generate_secret total fill pool_of choose_each
generate_secret-none choices policy e none_asked =
    let sum : policy.min_lowercase + policy.min_uppercase + policy.min_digits + policy.min_symbols
        ≡ 0 =
      none_asked in
    let l : policy.min_lowercase ≡ 0 = omega (arith, sum) in
    let u : policy.min_uppercase ≡ 0 = omega (arith, sum) in
    let d : policy.min_digits ≡ 0 = omega (arith, sum) in
    let s : policy.min_symbols ≡ 0 = omega (arith, sum) in rw (e, l, u, d, s) refl

none_or_some : (n : ℕ) → (n ≡ 0) ⊎ (0 < n)
none_or_some zero = inl refl
none_or_some (suc n) = inr (omega arith)

-- For a policy that `validate` accepts, whose length is below the largest `usize`, and a shuffle
-- that permutes its argument: when the policy asks for no characters at all, no secret is made and
-- the error is "policy_empty_charset"; otherwise one is made, of the length of the policy and with
-- at least as many lower-case letters, upper-case letters, digits and symbols as the policy asks.
pub generate_secret-IsGenerated :
    (choices : Choices) (policy : PasswordPolicy)
    → ((t : Text) → Perm (choices.shuffle t) t)
    → policy.length < 18446744073709551615
    → validate policy ≡ ok tt
    → ((total policy ≡ 0) × (generate_secret choices policy ≡ err "policy_empty_charset"))
      ⊎ ((0 < total policy)
          × ((secret : Text) × ((generate_secret choices policy ≡ ok secret)
                × IsGenerated policy secret)))
generate_secret-IsGenerated choices policy shuffled small e = elim (none_or_some (total policy)) [
  | inl h ↦ inl (h, generate_secret-none choices policy e h)
  | inr h ↦
      inr (h, generate_secret-made choices policy shuffled e (validate-Valid policy small e) h)
]
