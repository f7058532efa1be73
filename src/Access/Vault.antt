-- ===== src/Access/Vault.antt =====
-- crates/zann-server/src/domains/access_control/http.rs: access to a vault by membership or by the
-- scopes of a service account, and the check that handlers make: policies first, then roles.
use zann.Base.{
  ℕ, Bool, true, false, ◌||◌, ◌&&◌, not, Option, none, some, List, Text, Result, ok, err, ◌>>=◌,
  find_first, ◌==◌, if◌then◌else◌,
}
use zann.External.{External}
use zann.Core.Structs.{Identity, Vault, VaultMember, ServiceAccount}
use zann.Core.Enums.VaultKind.{VaultKind, personal, shared}
use zann.Core.Enums.VaultEncryptionType.{VaultEncryptionType, client, server}
use zann.Access.Policy.{PolicySet, allowed, denied, no_match, evaluate}
use zann.Access.Role.{VaultScope, members, role_permits, one_of, read_actions}
use zann.Access.Scope.{scopes_allow_vault}

-- The tables that access control reads, and which of them cannot be read during the request.
pub record AccessDb : Type 0 where
  pub vaults : List Vault
  pub vault_members : List VaultMember
  pub service_accounts : List ServiceAccount
  pub vaults_fail : Bool
  pub members_fail : Bool
  pub accounts_fail : Bool

pub data SqlError : Type 0 where
  sql_error : SqlError

abbrev fetch {ℓ} : {A : Type ℓ} → Bool → Option A → Result SqlError (Option A)
fetch true row = err sql_error
fetch false row = ok row

-- `deleted_at IS NULL`.
abbrev pub is_none {ℓ} : {A : Type ℓ} → Option A → Bool
is_none none = true
is_none (some a) = false

-- `VaultRepo::get_by_id`.
unfoldable pub get_vault : AccessDb → ℕ → Result SqlError (Option Vault)
get_vault db id =
    fetch db.vaults_fail (find_first (λ v. v.id == id && is_none v.deleted_at) db.vaults)

-- `VaultMemberRepo::get`.
unfoldable pub get_member : AccessDb → ℕ → ℕ → Result SqlError (Option VaultMember)
get_member db vault_id user_id =
    fetch db.members_fail
      (find_first (λ m. m.vault_id == vault_id && m.user_id == user_id) db.vault_members)

-- `ServiceAccountRepo::get_by_id`.
unfoldable pub get_account : AccessDb → ℕ → Result SqlError (Option ServiceAccount)
get_account db id = fetch db.accounts_fail (find_first (λ a. a.id == id) db.service_accounts)

abbrev is_shared : VaultKind → Bool
is_shared shared = true
is_shared personal = false

abbrev is_server : VaultEncryptionType → Bool
is_server server = true
is_server client = false

unfoldable pub is_shared_server_vault : Vault → Bool
is_shared_server_vault v = is_shared v.kind && is_server v.encryption_type

abbrev is_members : VaultScope → Bool
is_members members = true
is_members _ = false

module _ (ext : External) (db : AccessDb) where
  unfoldable pub service_account_allows : ℕ → Vault → Text → VaultScope → Result SqlError Bool
  unfolding is_shared_server_vault get_account
  service_account_allows account_id v action scope =
      if not (one_of read_actions action)
      then ok false
      else if is_members scope
      then ok false
      else if not (is_shared v.kind) || not (is_server v.encryption_type)
      then ok false
      else do
        account ← get_account db account_id
        elim account [
          | none ↦ ok false
          | some account ↦ if scopes_allow_vault ext account.scopes v then ok true else ok false
        ]

  unfoldable pub vault_role_allows : Identity → ℕ → Text → VaultScope → Result SqlError Bool
  unfolding service_account_allows get_vault get_member
  vault_role_allows identity vault_id action scope = elim identity.service_account_id [
    | some account_id ↦ do
      row ← get_vault db vault_id
      elim row [ none ↦ ok false | some v ↦ service_account_allows account_id v action scope ]
    | none ↦ do
      row ← get_member db vault_id identity.user_id
      elim row [ none ↦ ok false | some m ↦ ok (role_permits m.role action scope) ]
  ]

  -- The `match policies.evaluate(…)` that stands in every handler: a policy decides, and the role
  -- where no policy matches.
  unfoldable pub access : PolicySet → Identity → ℕ → Text → Text → VaultScope → Result SqlError Bool
  unfolding vault_role_allows
  access policies identity vault_id action resource scope =
      elim (evaluate ext policies identity action resource) [
        | allowed ↦ ok true
        | denied ↦ ok false
        | no_match ↦ vault_role_allows identity vault_id action scope
      ]
