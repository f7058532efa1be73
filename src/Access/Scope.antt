-- ===== src/Access/Scope.antt =====
-- crates/zann-server/src/domains/access_control/http.rs: the scopes of service accounts.
use zann.Base.{
  ℕ, Bool, ◌||◌, ◌&&◌, Option, none, some, List, Text, codes, text_eq, any, is_empty, trim,
  trim_matches, split_once, rsplit_once, strip_prefix, ◌==◌, if◌then◌else◌,
}
use zann.External.{External}
use zann.Core.Structs.{Vault}
use zann.Access.Policy.{is_some_and}
use zann.Access.Pattern.{matches_pattern}

pub data ScopeTarget : Type 0 where
  vault tag pattern : Text → ScopeTarget

pub record ScopeRule : Type 0 where
  pub target : ScopeTarget
  pub permission : Text
  pub prefix : Option Text

infixl 5 ◌>>=◌
abbrev ◌>>=◌ : {A B : Type 0} → Option A → (A → Option B) → Option B
none >>= f = none
some a >>= f = f a

abbrev is_slash : ℕ → Bool
is_slash c = c == b'/'

unfoldable pub normalize_prefix : Text → Option Text
normalize_prefix prefix =
    let trimmed = trim_matches is_slash (trim prefix) in
    if is_empty trimmed then none else some trimmed

unfoldable pub split_prefix : Text → Option (Text × Option Text)
unfolding normalize_prefix
split_prefix selector = elim (split_once (codes "/prefix:") selector) [
  | some (target, prefix) ↦ do prefix ← normalize_prefix prefix; some (target, some prefix)
  | none ↦ some (selector, none)
]

-- The two branches of `parse_scope_target` that need a text after the tag.
abbrev nonempty : (Text → ScopeTarget) → Text → Option ScopeTarget
nonempty make rest = let name = trim rest in if is_empty name then none else some (make name)

unfoldable pub parse_scope_target : Text → Option ScopeTarget
parse_scope_target value = elim (strip_prefix (codes "tag:") value) [
  | some rest ↦ nonempty tag rest
  | none ↦ elim (strip_prefix (codes "pattern:") value) [
    | some rest ↦ nonempty pattern rest
    | none ↦ some (vault value)
  ]
]

unfoldable pub parse_scope : Text → Option ScopeRule
unfolding split_prefix parse_scope_target
parse_scope scope = do
  (before, after) ← rsplit_once b':' scope
  let permission = trim after
  let selector = trim before
  if is_empty selector || is_empty permission then none else do
    (selector, prefix) ← split_prefix selector
    target ← parse_scope_target selector
    some (record { target = target; permission = permission; prefix = prefix })

module _ (ext : External) where
  unfoldable pub vault_matches_scope : Vault → ScopeTarget → Bool
  unfolding matches_pattern
  vault_matches_scope v (vault scope) = text_eq v.slug scope || text_eq (ext.uuid_text v.id) scope
  vault_matches_scope v (tag t) = is_some_and (λ tags. any (λ value. text_eq value t) tags) v.tags
  vault_matches_scope v (pattern p) = matches_pattern p v.slug

  abbrev reads_vault : Vault → Text → Bool
  reads_vault v scope =
      is_some_and
        (λ rule. text_eq rule.permission (codes "read") && vault_matches_scope v rule.target)
        (parse_scope scope)

  unfoldable pub scopes_allow_vault : List Text → Vault → Bool
  unfolding parse_scope vault_matches_scope
  scopes_allow_vault scopes v = any (reads_vault v) scopes
