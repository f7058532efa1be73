-- ===== src/Secrets/Tests.antt =====
-- Secrets of the default policy, and of one that asks for no characters.
use mathlib.Core.List.{reverse_perm}
use zann.Base.{◌<◌, ◌≡◌, ◌⊎◌, refl, none, reverse, Text, trim, ok, err, arith}
use zann.Rotation.Password.{Choices}
use zann.Secrets.Policies.{PasswordPolicy, default_policy, validate, generate_secret}
use zann.Secrets.Generated.{IsGenerated, total, generate_secret-IsGenerated}

abbrev counting : Choices
counting = record { index = λ i. i; shuffle = reverse }

abbrev careless_policy : PasswordPolicy
careless_policy = record {
  length = 12;
  min_lowercase = 0;
  min_uppercase = 0;
  min_digits = 0;
  min_symbols = 0;
  symbols = none;
}

careless_is_valid : validate careless_policy ≡ ok tt
unfolding validate
careless_is_valid = refl

default_is_valid : validate default_policy ≡ ok tt
unfolding validate trim
default_is_valid = refl

generate_secret-IsGenerated_example :
    ((total default_policy ≡ 0)
      × (generate_secret counting default_policy ≡ err "policy_empty_charset"))
    ⊎ ((0 < total default_policy)
        × ((secret : Text) × ((generate_secret counting default_policy ≡ ok secret)
              × IsGenerated default_policy secret)))
generate_secret-IsGenerated_example =
    generate_secret-IsGenerated counting default_policy reverse_perm (omega arith) default_is_valid

careless_example : generate_secret counting careless_policy ≡ err "policy_empty_charset"
unfolding generate_secret
careless_example = refl
