-- ===== src/Access/Policy/Order.antt =====
-- Policy evaluation against its specification: denial wins, and the order of the rules is immaterial.
use zann.Base.{
  ◌≡◌, refl, Bool, true, false, ◌||◌, ◌&&◌, List, [], ◌∷◌, Text, any, any-permᴰ, arith,
  if◌then◌else◌,
}
use mathlib.Core.List.{Perm}
use mathlib.Core.Logic.{∥∥₁_elim}
use zann.External.{External}
use zann.Core.Structs.{Identity}
use zann.Access.Policy.{
  PolicyRule, PolicySet, PolicyDecision, Effect, allow, deny, allowed, denied, no_match,
  matches_subject, matches_action, matches_pattern, evaluate_rules, evaluate,
}

abbrev is_deny : Effect → Bool
is_deny deny = true
is_deny allow = false

or_false : (b : Bool) → (b || false) ≡ b
or_false true = refl
or_false false = refl

swap_tests : (a b c : Bool) → (a || (b || c)) ≡ (b || (a || c))
swap_tests a b c = ground arith

or_true : (b : Bool) → (b || true) ≡ true
or_true true = refl
or_true false = refl

regroup :
    (d ds any_allow here later default_allow : Bool)
    → (if d
        then denied
        else if ds
        then denied
        else if (any_allow || here) || (later || default_allow)
        then allowed
        else no_match)
      ≡ (if d || ds
          then denied
          else if any_allow || ((here || later) || default_allow)
          then allowed
          else no_match)
regroup d ds any_allow here later default_allow = ground arith

module _ (ext : External) (identity : Identity) (action resource : Text) where
  -- The rule is about this request.
  abbrev pub applies : PolicyRule → Bool
  applies rule =
      matches_subject ext identity rule
      && (matches_action ext rule.actions action && matches_pattern ext rule.resource resource)

  abbrev pub denies : PolicyRule → Bool
  denies rule = applies rule && is_deny rule.effect

  -- The specification: one matching denial denies, else one matching permission allows.
  abbrev pub decide_by : Bool → List PolicyRule → PolicyDecision
  decide_by default_allow rules =
      if any denies rules
      then denied
      else if any applies rules || default_allow
      then allowed
      else no_match

  evaluate_rules-cons :
      (default_allow any_allow : Bool) (rule : PolicyRule) (rules : List PolicyRule)
      → evaluate_rules ext default_allow any_allow (rule ∷ rules) identity action resource ≡ (
          if denies rule
          then denied
          else evaluate_rules ext default_allow
              (any_allow || applies rule)
              rules
              identity
              action
              resource)
  unfolding evaluate_rules
  evaluate_rules-cons default_allow any_allow rule rules =
      ground (arith, or_false any_allow, or_true any_allow)

  evaluate_rules-decide :
      (default_allow any_allow : Bool) (rules : List PolicyRule)
      → evaluate_rules ext default_allow any_allow rules identity action resource ≡ (
          if any denies rules
          then denied
          else if any_allow || (any applies rules || default_allow)
          then allowed
          else no_match)
  unfolding evaluate_rules
  evaluate_rules-decide default_allow any_allow [] = refl
  evaluate_rules-decide default_allow any_allow (rule ∷ rules) =
      rw
        (
          evaluate_rules-cons default_allow any_allow rule rules,
          evaluate_rules-decide default_allow (any_allow || applies rule) rules,
        )
        (regroup (denies rule) (any denies rules) any_allow (applies rule) (any applies rules)
          default_allow)

  -- `evaluate` is the specification.
  pub evaluate-decide :
      (set : PolicySet)
      → evaluate ext set identity action resource ≡ decide_by set.default_allow set.rules
  unfolding evaluate
  evaluate-decide set = evaluate_rules-decide set.default_allow false set.rules

decision-set : IsSet PolicyDecision
decision-set = hlevel

-- The decision does not depend on the order of the rules.
pub evaluate-perm :
    (ext : External) (default_allow : Bool) (rules others : List PolicyRule) (identity : Identity)
    (action resource : Text)
    → Perm rules others
    → evaluate ext
        (record { rules = rules; default_allow = default_allow })
        identity
        action
        resource
      ≡ evaluate ext
          (record { rules = others; default_allow = default_allow })
          identity
          action
          resource
evaluate-perm ext default_allow rules others identity action resource h =
    ∥∥₁_elim h (decision-set _ _) λ p. rw (
      evaluate-decide ext identity action resource
          (record { rules = rules; default_allow = default_allow }),
      evaluate-decide ext identity action resource
          (record { rules = others; default_allow = default_allow }),
      any-permᴰ (denies ext identity action resource) p,
      any-permᴰ (applies ext identity action resource) p,
    )
