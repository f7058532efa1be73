-- ===== src/Access/Tests.antt =====
-- Requests against small policies, and the theorems about access at them.
use mathlib.Core.List.Perm
use zann.Base.{◌&&◌, starts_with, ends_with, ◌≡◌, refl, false, none, some, [], ◌∷◌, codes, text_eq}
use zann.External.{External}
use zann.Core.Structs.{Identity, AuthSource}
use zann.Access.Policy.{
  PolicyRule, PolicySet, anyone, allow, deny, denied, matches_pattern, matches_action,
  matches_subject, evaluate_rules, evaluate,
}
use zann.Access.Pattern.{matches_pattern as matches_vault_pattern}
use zann.Access.Pattern.Plain.{matches_pattern-plain}
use zann.Access.Policy.Order.{decide_by, evaluate-decide, evaluate-perm}

-- Patterns that are compared as they stand.
abbrev plain_ext : External
plain_ext = record {
  uuid_text = λ n. n ∷ [];
  rfc3339 = λ n. n ∷ [];
  glob = λ p. some (text_eq p);
  base64_encode = λ bytes. bytes;
  base64_decode = some;
  cursor_to_vec = λ _. [];
  cursor_from_slice = λ _. none;
}

abbrev bob : Identity
bob = record {
  user_id = 3;
  email = [];
  display_name = [];
  avatar_url = none;
  avatar_initials = [];
  groups = [];
  source = AuthSource.internal;
  device_id = none;
  service_account_id = none;
}

abbrev allow_read : PolicyRule
allow_read = record {
  name = codes "r";
  subject_type = anyone;
  subject_id = none;
  effect = allow;
  actions = codes "read" ∷ [];
  resource = codes "*";
}

abbrev deny_read : PolicyRule
deny_read = record allow_read { effect = deny }

abbrev both : PolicySet
both = record { rules = allow_read ∷ deny_read ∷ []; default_allow = false }

denial_wins : evaluate plain_ext both bob (codes "read") (codes "v/1") ≡ denied
unfolding evaluate evaluate_rules matches_subject matches_action matches_pattern text_eq
denial_wins = refl

evaluate-decide_example :
    evaluate plain_ext both bob (codes "read") (codes "v/1")
    ≡ decide_by plain_ext bob (codes "read") (codes "v/1") false (allow_read ∷ deny_read ∷ [])
evaluate-decide_example = evaluate-decide plain_ext bob (codes "read") (codes "v/1") both

evaluate-perm_example :
    evaluate plain_ext both bob (codes "read") (codes "v/1")
    ≡ evaluate plain_ext
        (record { rules = deny_read ∷ allow_read ∷ []; default_allow = false })
        bob
        (codes "read")
        (codes "v/1")
evaluate-perm_example =
    evaluate-perm plain_ext false (allow_read ∷ deny_read ∷ []) (deny_read ∷ allow_read ∷ []) bob
      (codes "read") (codes "v/1") (Perm.swap deny_read allow_read [])

-- The pattern `prod` lets a scope reach the vault `prod-copy-of-prod`.
matches_pattern-plain_example :
    matches_vault_pattern (codes "prod") (codes "prod-copy-of-prod")
    ≡ starts_with (codes "prod") (codes "prod-copy-of-prod")
      && ends_with (codes "prod") (codes "prod-copy-of-prod")
matches_pattern-plain_example =
    matches_pattern-plain (codes "prod") (codes "prod-copy-of-prod") refl refl
