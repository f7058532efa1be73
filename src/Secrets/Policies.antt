-- ===== src/Secrets/Policies.antt =====
-- crates/zann-server/src/domains/secrets/policies.rs: policies of generated secrets, and their
-- generator. What the random generator (crate rand) draws is an argument.
use zann.Base.{
  ℕ, zero, suc, ◌+◌, ◌-◌, ◌%◌, min, Option, some, [], ◌∷◌, ◌++◌, String, Text, codes, is_empty,
  trim, length, ltb, ◌==◌, unwrap_or, Result, ok, err, ◌>>=◌, if◌then◌else◌,
}
use zann.Rotation.Password.{Choices, get_elem?}

abbrev pub default_symbols : Text
default_symbols = codes "!@#$%^&*()-_=+[]{};:,.?/"

pub record PasswordPolicy : Type 0 where
  pub length : ℕ
  pub min_lowercase : ℕ
  pub min_uppercase : ℕ
  pub min_digits : ℕ
  pub min_symbols : ℕ
  pub symbols : Option Text

abbrev pub default_policy : PasswordPolicy
default_policy = record {
  length = 32;
  min_lowercase = 1;
  min_uppercase = 1;
  min_digits = 1;
  min_symbols = 1;
  symbols = some default_symbols;
}

-- `usize::saturating_add`.
abbrev pub saturating_add : ℕ → ℕ → ℕ
saturating_add a b = min (a + b) 18446744073709551615

abbrev pub symbol_set : PasswordPolicy → Text
symbol_set policy = unwrap_or policy.symbols default_symbols

unfoldable pub validate : PasswordPolicy → Result String (Unit {0})
validate policy =
    let min_total =
      saturating_add
        (saturating_add (saturating_add policy.min_lowercase policy.min_uppercase)
          policy.min_digits)
        policy.min_symbols in
    if policy.length == 0
    then err "policy_length_zero"
    else if ltb policy.length min_total
    then err "policy_min_exceeds_length"
    else if ltb 0 policy.min_symbols
    then (if is_empty (trim (symbol_set policy)) then err "policy_symbols_empty" else ok tt)
    else ok tt

abbrev pub lowercase : Text
lowercase = codes "abcdefghijklmnopqrstuvwxyz"

abbrev pub uppercase : Text
uppercase = codes "ABCDEFGHIJKLMNOPQRSTUVWXYZ"

abbrev pub digits : Text
digits = codes "0123456789"

-- `for _ in 0..n { result.push(*set.choose(&mut rng).ok_or(empty)?) }`, from the `i`-th draw on.
unfoldable pub choose_each : Choices → String → ℕ → ℕ → Text → Result String Text
choose_each choices empty i zero set = ok []
choose_each choices empty i (suc n) [] = err empty
choose_each choices empty i (suc n) (c ∷ cs) = do
  rest ← choose_each choices empty (suc i) n (c ∷ cs)
  ok (unwrap_or (get_elem? (c ∷ cs) (choices.index i % suc (length cs))) 0 ∷ rest)

unfoldable pub pool_of : PasswordPolicy → Text
pool_of policy =
    (if ltb 0 policy.min_lowercase then lowercase else [])
    ++ ((if ltb 0 policy.min_uppercase then uppercase else [])
        ++ ((if ltb 0 policy.min_digits then digits else [])
            ++ (if ltb 0 policy.min_symbols then symbol_set policy else [])))

-- What follows the check that the pool is not empty; the loop `while result.len() < policy.length`.
unfoldable pub fill : Choices → PasswordPolicy → Text → Result String Text
unfolding pool_of choose_each
fill choices policy result = if is_empty (pool_of policy) then err "policy_empty_charset" else do
  rest ←
      choose_each choices "policy_empty_charset" (length result) (policy.length - length result)
        (pool_of policy)
  ok (choices.shuffle (result ++ rest))

unfoldable pub generate_secret : Choices → PasswordPolicy → Result String Text
unfolding validate choose_each fill
generate_secret choices policy = do
  _ ← validate policy
  ls ← choose_each choices "policy_lowercase_empty" 0 policy.min_lowercase lowercase
  us ←
      choose_each choices "policy_uppercase_empty" policy.min_lowercase policy.min_uppercase
        uppercase
  ds ←
      choose_each choices "policy_digits_empty" (policy.min_lowercase + policy.min_uppercase)
        policy.min_digits digits
  ss ←
      choose_each choices "policy_symbols_empty"
        (policy.min_lowercase + policy.min_uppercase + policy.min_digits) policy.min_symbols
        (symbol_set policy)
  fill choices policy (ls ++ (us ++ (ds ++ ss)))
