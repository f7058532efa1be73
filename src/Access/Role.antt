-- ===== src/Access/Role.antt =====
-- crates/zann-server/src/domains/access_control/http.rs: what the role of a vault member permits.
use zann.Base.{Bool, true, List, [], ◌∷◌, Text, codes, text_eq, any}
use zann.Core.Enums.VaultMemberRole.{VaultMemberRole, admin, operator, member, readonly}

pub data VaultScope : Type 0 where
  vault items members sync : VaultScope

-- `matches!(action, a | b | …)`.
abbrev pub one_of : List Text → Text → Bool
one_of names action = any (λ name. text_eq action name) names

abbrev pub read_actions : List Text
read_actions = codes "read" ∷ codes "list" ∷ []

abbrev pub operator_actions : List Text
operator_actions =
    codes "read"
    ∷ codes "list"
    ∷ codes "write"
    ∷ codes "read_history"
    ∷ codes "read_previous"
    ∷ codes "rotate_start"
    ∷ codes "rotate_commit"
    ∷ codes "rotate_abort"
    ∷ codes "read_candidate"
    ∷ codes "recover"
    ∷ []

abbrev pub member_actions : List Text
member_actions = codes "read" ∷ codes "list" ∷ codes "write" ∷ codes "read_history" ∷ []

abbrev pub readonly_actions : List Text
readonly_actions = codes "read" ∷ codes "list" ∷ codes "read_history" ∷ []

unfoldable pub role_permits : VaultMemberRole → Text → VaultScope → Bool
role_permits admin action scope = true
role_permits operator action vault = one_of read_actions action
role_permits operator action items = one_of operator_actions action
role_permits operator action sync = one_of operator_actions action
role_permits operator action members = one_of read_actions action
role_permits member action vault = one_of read_actions action
role_permits member action items = one_of member_actions action
role_permits member action sync = one_of member_actions action
role_permits member action members = one_of read_actions action
role_permits readonly action scope = one_of readonly_actions action
