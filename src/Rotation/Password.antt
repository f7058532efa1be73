-- ===== src/Rotation/Password.antt =====
-- crates/zann-server/src/domains/vaults/http/v1/shared/helpers.rs: `generate_password`. What the
-- random generator (crate rand) draws is an argument.
use zann.Base.{
  ℕ, zero, suc, ◌%◌, Option, none, some, [], ◌∷◌, ◌++◌, String, Text, codes, text_eq, length,
  unwrap_or, Result, ok, err, ok_or, ◌>>=◌, if◌then◌else◌,
}

-- The index that the `i`-th `choose` of a call draws, and what `shuffle` does.
pub record Choices : Type 0 where
  pub index : ℕ → ℕ
  pub shuffle : Text → Text

abbrev pub upper : Text
upper = codes "ABCDEFGHJKLMNPQRSTUVWXYZ"

abbrev pub lower : Text
lower = codes "abcdefghijkmnopqrstuvwxyz"

abbrev pub digits : Text
digits = codes "23456789"

abbrev pub symbols : Text
symbols = codes "!@#$%^&*_-+=?"

abbrev pub charset : Text
charset = codes "ABCDEFGHJKLMNPQRSTUVWXYZabcdefghijkmnopqrstuvwxyz23456789"

abbrev pub get_elem? : Text → ℕ → Option ℕ
get_elem? [] n = none
get_elem? (c ∷ cs) zero = some c
get_elem? (c ∷ cs) (suc n) = get_elem? cs n

-- `chars.choose(&mut rng).ok_or("invalid_policy")?`.
abbrev pub choose : Choices → ℕ → Text → Result String ℕ
choose choices i [] = err "invalid_policy"
choose choices i (c ∷ cs) =
    ok_or (get_elem? (c ∷ cs) (choices.index i % length (c ∷ cs))) "invalid_policy"

-- The loop that draws the rest.
unfoldable pub choose_many : Choices → ℕ → ℕ → Text → Result String Text
choose_many choices i zero set = ok []
choose_many choices i (suc n) set = do
  c ← choose choices i set
  cs ← choose_many choices (suc i) n set
  ok (c ∷ cs)

unfoldable pub default_password : Choices → Result String Text
unfolding choose_many
default_password choices = do
  u ← choose choices 0 upper
  l ← choose choices 1 lower
  d ← choose choices 2 digits
  s ← choose choices 3 symbols
  rest ← choose_many choices 4 20 (upper ++ (lower ++ (digits ++ symbols)))
  ok (choices.shuffle (u ∷ (l ∷ (d ∷ (s ∷ rest)))))

unfoldable pub generate_password : Choices → Option Text → Result String Text
unfolding default_password choose_many
generate_password choices policy =
    let name = unwrap_or policy (codes "default") in
    if text_eq name (codes "default")
    then default_password choices
    else if text_eq name (codes "alnum")
    then choose_many choices 0 24 charset
    else err "invalid_policy"
