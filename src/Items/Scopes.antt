-- ===== src/Items/Scopes.antt =====
-- crates/zann-server/src/domains/items/service.rs: paths of items, and what the scopes of a service
-- account permit on them.
use zann.Base.{
  ℕ, Bool, true, ◌||◌, ◌&&◌, not, Option, none, some, List, [], ◌∷◌, ◌++◌, Text, codes, text_eq,
  any, all, is_empty, trim, trim_matches, starts_with, ends_with, find, Result, ok, err, ensure,
  ◌>>◌, if◌then◌else◌,
}
use zann.External.{External}
use zann.Errors.{ServiceError}
use zann.Core.Structs.{Vault}
use zann.Access.Policy.{is_some_and}
use zann.Access.Role.{one_of}
use zann.Access.Scope.{ScopeRule, parse_scope, vault_matches_scope}
use zann.Access.Vault.{AccessDb, is_none, get_account}
use zann.Sync.Paths.{is_slash}

-- `path.contains("//")`.
abbrev has_empty_part : Text → Bool
has_empty_part path = not (is_none (find (codes "//") path))

unfoldable pub validate_item_path : Text → Result ServiceError Text
unfolding trim
validate_item_path given = do
  let path = trim given
  ensure (not (is_empty path)) (ServiceError.bad_request "invalid_path")
  ensure (not (starts_with (codes "/") path))
      (ServiceError.bad_request "invalid_path_leading_slash")
  ensure (not (ends_with (codes "/") path)) (ServiceError.bad_request "invalid_path_trailing_slash")
  ensure (not (has_empty_part path)) (ServiceError.bad_request "invalid_path_double_slash")
  ok path

unfoldable pub normalize_prefix : Option Text → Option Text
unfolding trim
normalize_prefix none = none
normalize_prefix (some value) =
    let trimmed = trim_matches is_slash (trim value) in
    if is_empty trimmed then none else some trimmed

-- Whether the path lies at or under the prefix.
unfoldable pub prefix_match : Option Text → Text → Bool
unfolding trim
prefix_match none path = true
prefix_match (some prefix) path =
    let inner = trim_matches is_slash (trim path) in
    text_eq inner prefix || starts_with (prefix ++ codes "/") inner

unfoldable pub scope_allows_action : Text → Text → Bool
scope_allows_action permission action =
    if text_eq action (codes "read_history")
    then one_of (codes "history_read" ∷ (codes "read_history" ∷ (codes "read_previous" ∷ [])))
        permission
    else if text_eq action (codes "read_previous")
    then text_eq permission (codes "read_previous")
    else if one_of (codes "read" ∷ (codes "list" ∷ [])) action
    then text_eq permission (codes "read")
    else text_eq permission action

module _ (ext : External) where
  unfoldable pub scope_matches_path : ScopeRule → Vault → Text → Bool
  unfolding vault_matches_scope prefix_match
  scope_matches_path rule v path =
      vault_matches_scope ext v rule.target && prefix_match rule.prefix path

  -- A prefix of a scope covers only requests for a prefix.
  abbrev pub covers : Option Text → Option Text → Bool
  covers none asked = true
  covers (some scope_prefix) asked = is_some_and (prefix_match (some scope_prefix)) asked

  unfoldable pub scope_matches_prefix : ScopeRule → Vault → Option Text → Bool
  unfolding vault_matches_scope prefix_match
  scope_matches_prefix rule v prefix =
      vault_matches_scope ext v rule.target && covers rule.prefix prefix

  -- `.await.ok().flatten().map(|account| account.scopes.0)`.
  abbrev pub service_account_scopes : AccessDb → ℕ → Option (List Text)
  service_account_scopes db id = elim (get_account db id) [
    | err e ↦ none
    | ok none ↦ none
    | ok (some account) ↦ some account.scopes
  ]

  abbrev pub permits_path : Vault → Text → Text → Text → Bool
  permits_path v action path scope =
      is_some_and
        (λ rule. scope_allows_action rule.permission action && scope_matches_path rule v path)
        (parse_scope scope)

  unfoldable pub service_account_allows_path : AccessDb → ℕ → Vault → Text → Text → Bool
  unfolding get_account parse_scope scope_allows_action scope_matches_path
  service_account_allows_path db id v action path =
      is_some_and (any (permits_path v action path)) (service_account_scopes db id)

  abbrev pub add_rule : Vault → Text → Option ScopeRule → List ScopeRule → List ScopeRule
  add_rule v action none rules = rules
  add_rule v action (some rule) rules =
      if scope_allows_action rule.permission action && vault_matches_scope ext v rule.target
      then rule ∷ rules
      else rules

  -- The rules of the scopes that are about the action and the vault.
  abbrev pub matched_rules : Vault → Text → List Text → List ScopeRule
  matched_rules v action [] = []
  matched_rules v action (scope ∷ scopes) =
      add_rule v action (parse_scope scope) (matched_rules v action scopes)

  abbrev pub rules_allow : Vault → Option Text → List ScopeRule → Bool
  rules_allow v prefix rules =
      not (is_empty rules)
      && (not (is_none prefix && all (λ rule. not (is_none rule.prefix)) rules)
          && any (λ rule. scope_matches_prefix rule v prefix) rules)

  unfoldable pub service_account_allows_prefix : AccessDb → ℕ → Vault → Text → Option Text → Bool
  unfolding get_account parse_scope scope_allows_action scope_matches_prefix
  service_account_allows_prefix db id v action prefix =
      is_some_and (λ scopes. rules_allow v prefix (matched_rules v action scopes))
        (service_account_scopes db id)
