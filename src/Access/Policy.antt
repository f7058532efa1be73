-- ===== src/Access/Policy.antt =====
-- crates/zann-server/src/domains/access_control/policies.rs: policy rules and their evaluation.
pub mod Order
use zann.Base.{
  ℕ, Bool, true, false, ◌||◌, not, Option, none, some, List, [], ◌∷◌, Text, codes, text_eq, any,
  unwrap_or, if◌then◌else◌,
}
use zann.External.{External}
use zann.Core.Structs.{Identity}

pub data SubjectType : Type 0 where
  user group device service_account anyone : SubjectType

pub data Effect : Type 0 where
  allow deny : Effect

pub record PolicyRule : Type 0 where
  pub name : Text
  pub subject_type : SubjectType
  pub subject_id : Option Text
  pub effect : Effect
  pub actions : List Text
  pub resource : Text

pub record PolicySet : Type 0 where
  pub rules : List PolicyRule
  pub default_allow : Bool

pub data PolicyDecision : Type 0 where
  allowed denied no_match : PolicyDecision

unfoldable pub allow_all : PolicySet
allow_all = record { rules = []; default_allow = true }

unfoldable pub from_rules : List PolicyRule → PolicySet
from_rules rules = record { rules = rules; default_allow = false }

-- `opt.is_some_and(test)`, and `opt.map(test).unwrap_or(false)`.
abbrev pub is_some_and {ℓ} : {A : Type ℓ} → (A → Bool) → Option A → Bool
is_some_and test none = false
is_some_and test (some a) = test a

module _ (ext : External) where
  unfoldable pub matches_pattern : Text → Text → Bool
  matches_pattern pattern value =
      if text_eq pattern (codes "*")
      then true
      else is_some_and (λ matches. matches value) (ext.glob pattern)

  unfoldable pub matches_action : List Text → Text → Bool
  unfolding matches_pattern
  matches_action actions action = any (λ pattern. matches_pattern pattern action) actions

  has_id : Option ℕ → Text → Bool
  has_id own id = is_some_and (λ dev. text_eq (ext.uuid_text dev) id) own

  subject_test : SubjectType → Identity → Option Text → Bool
  unfolding has_id
  subject_test anyone identity subject_id = true
  subject_test user identity subject_id =
      is_some_and (λ id. text_eq id (ext.uuid_text identity.user_id)) subject_id
  subject_test group identity subject_id =
      is_some_and (λ id. any (λ g. text_eq g id) identity.groups) subject_id
  subject_test device identity subject_id = is_some_and (has_id identity.device_id) subject_id
  subject_test service_account identity subject_id =
      is_some_and (has_id identity.service_account_id) subject_id

  unfoldable pub matches_subject : Identity → PolicyRule → Bool
  unfolding subject_test
  matches_subject identity rule = subject_test rule.subject_type identity rule.subject_id

  -- The loop of `evaluate` over the rules that are left, and what follows it.
  unfoldable pub evaluate_rules :
      Bool → Bool → List PolicyRule → Identity → Text → Text → PolicyDecision
  evaluate_rules default_allow any_allow [] identity action resource =
      if any_allow || default_allow then allowed else no_match
  evaluate_rules default_allow any_allow (rule ∷ rules) identity action resource =
      let skip = evaluate_rules default_allow any_allow rules identity action resource in
      let allows = evaluate_rules default_allow true rules identity action resource in
      if not (matches_subject identity rule)
      then skip
      else if not (matches_action rule.actions action)
      then skip
      else if not (matches_pattern rule.resource resource)
      then skip
      else elim rule.effect [ deny ↦ denied | allow ↦ allows ]

  unfoldable pub evaluate : PolicySet → Identity → Text → Text → PolicyDecision
  unfolding evaluate_rules
  evaluate set identity action resource =
      evaluate_rules set.default_allow false set.rules identity action resource

  unfoldable pub is_allowed : PolicySet → Identity → Text → Text → Bool
  unfolding evaluate
  is_allowed set identity action resource = elim (evaluate set identity action resource) [
    | allowed ↦ true
    | _ ↦ false
  ]
