-- ===== src/Auth/Identify.antt =====
-- crates/zann-server/src/domains/auth/core/identity.rs: the identity behind a token.
use zann.Base.{
  ℕ, Bool, true, false, ◌||◌, ◌&&◌, not, Option, none, some, List, [], ◌∷◌, Text, codes, text_eq,
  starts_with, take, find_first, any, ltb, String, Result, ok, err, ok_or, ensure, ◌>>=◌, ◌>>◌,
  ◌==◌, if◌then◌else◌,
}
use zann.Core.Structs.{
  Session, ServiceAccount, ServiceAccountSession, Identity, AuthSource, internal, service_account,
}
use zann.Core.Enums.UserStatus.{UserStatus, active, disabled, system}
use zann.Access.Vault.{is_none}
use zann.Auth.Store.{
  AuthDb, AuthSite, AuthFaults, Group, GroupMember, unless_fails, user_by_id, session_by_access,
  account_session_by_access, account_by_id, accounts_by_prefix, members_of, group_by_id,
  update_usage,
}
use zann.Auth.Display.{display_name_for_user, avatar_initials_for_user}

-- `groups.sort()` and `groups.dedup()`.
unfoldable pub text_leb : Text → Text → Bool
text_leb [] t = true
text_leb (c ∷ s) [] = false
text_leb (c ∷ s) (d ∷ t) = ltb c d || (c == d && text_leb s t)

abbrev insert_text : Text → List Text → List Text
insert_text t [] = t ∷ []
insert_text t (u ∷ us) =
    let later = u ∷ insert_text t us in if text_leb t u then t ∷ (u ∷ us) else later

abbrev pub sort_texts : List Text → List Text
sort_texts [] = []
sort_texts (t ∷ ts) = insert_text t (sort_texts ts)

abbrev skip_equal : Text → List Text → List Text
skip_equal t [] = []
skip_equal t (u ∷ us) = if text_eq t u then us else u ∷ us

abbrev pub dedup : List Text → List Text
dedup [] = []
dedup (t ∷ ts) = t ∷ skip_equal t (dedup ts)

abbrev add_slug : Option Group → List Text → List Text
add_slug none slugs = slugs
add_slug (some g) slugs = g.slug ∷ slugs

-- The slugs of the groups of the memberships.
unfoldable pub group_slugs : AuthDb → Bool → List GroupMember → Result String (List Text)
group_slugs db fails [] = ok []
group_slugs db fails (m ∷ ms) = do
  group ← unless_fails fails "db_error" (group_by_id db m.group_id)
  slugs ← group_slugs db fails ms
  ok (add_slug group slugs)

abbrev is_service : AuthSource → Bool
is_service service_account = true
is_service _ = false

abbrev pub status_allowed : UserStatus → AuthSource → Bool
status_allowed active source = true
status_allowed system source = is_service source
status_allowed disabled source = false

-- `is_some_and(|expires_at| expires_at < now)`.
abbrev pub passed_at : ℕ → Option ℕ → Bool
passed_at now none = false
passed_at now (some at) = ltb at now

abbrev pub account_prefix : Text
account_prefix = codes "zann_sa_"

abbrev pub account_prefix_len : ℕ
account_prefix_len = 12

-- The caller's address must be among those that the account allows.
abbrev pub ip_allowed : Option (List Text) → Option Text → Bool
ip_allowed none client_ip = true
ip_allowed (some ips) none = false
ip_allowed (some ips) (some ip) = any (λ allowed. text_eq allowed ip) ips

-- A user, a device and an account, with the source of the identity.
pub record Principal : Type 0 where
  pub user_id : ℕ
  pub device_id : Option ℕ
  pub service_account_id : Option ℕ
  pub source : AuthSource

module _ (site : AuthSite) (faults : AuthFaults) (db : AuthDb) where
  unfoldable pub identity_from_user : Principal → Result String Identity
  unfolding user_by_id group_slugs display_name_for_user avatar_initials_for_user text_leb
  identity_from_user p = do
    row ← unless_fails faults.users_fail "db_error" (user_by_id db p.user_id)
    user ← ok_or row "user_not_found"
    ensure (status_allowed user.status p.source) "user_disabled"
    members ← unless_fails faults.members_fail "db_error" (members_of db user.id)
    slugs ← group_slugs db faults.groups_fail members
    ok (record {
      user_id = user.id;
      email = user.email;
      display_name = display_name_for_user user.full_name user.email;
      avatar_url = none;
      avatar_initials = avatar_initials_for_user site.to_uppercase user.full_name user.email;
      groups = dedup (sort_texts slugs);
      source = p.source;
      device_id = p.device_id;
      service_account_id = p.service_account_id;
    })

  unfoldable pub session_principal : ℕ → Session → Result String Principal
  session_principal now s = do
    ensure (not (ltb s.access_expires_at now)) "token_expired"
    ok (record {
      user_id = s.user_id;
      device_id = some s.device_id;
      service_account_id = none;
      source = internal;
    })

  unfoldable pub account_principal : ℕ → ServiceAccountSession → Result String Principal
  unfolding account_by_id
  account_principal now s = do
    ensure (not (ltb s.expires_at now)) "token_expired"
    row ← unless_fails faults.accounts_fail "db_error" (account_by_id db s.service_account_id)
    account ← ok_or row "invalid_token"
    ensure (is_none account.revoked_at) "token_revoked"
    ensure (not (passed_at now account.expires_at)) "token_expired"
    ok (record {
      user_id = account.owner_user_id;
      device_id = none;
      service_account_id = some account.id;
      source = service_account;
    })

  abbrev account_or_invalid : ℕ → Option ServiceAccountSession → Result String Principal
  account_or_invalid now none = err "invalid_token"
  account_or_invalid now (some s) = account_principal now s

  -- The session of a user goes before that of an account.
  abbrev pub principal_of :
      ℕ → Option Session → Result String (Option ServiceAccountSession) → Result String Principal
  principal_of now (some s) rest = session_principal now s
  principal_of now none rest = rest >>= account_or_invalid now

  unfoldable pub identity_from_session_token : ℕ → Text → Result String Identity
  unfolding session_by_access account_session_by_access
  identity_from_session_token now token = do
    let hash = site.hash_token token
    session ← unless_fails faults.sessions_fail "db_error" (session_by_access db hash)
    principal ←
        principal_of now session
          (unless_fails faults.account_sessions_fail "db_error" (account_session_by_access db hash))
    identity_from_user principal

  -- The account of a token, which may be used from the address.
  unfoldable pub account_of_token : ℕ → Text → Option Text → Result String ServiceAccount
  account_of_token now token client_ip = do
    ensure (starts_with account_prefix token) "invalid_token"
    accounts ←
        unless_fails faults.accounts_fail "db_error"
          (accounts_by_prefix db (take account_prefix_len token))
    hash ← site.hash_service_token token
    account ← ok_or (find_first (λ a. text_eq a.token_hash hash) accounts) "invalid_token"
    ensure (is_none account.revoked_at) "token_revoked"
    ensure (not (passed_at now account.expires_at)) "token_expired"
    ensure (ip_allowed account.allowed_ips client_ip) "ip_not_allowed"
    ok account

  -- A failure to count the use is only logged.
  abbrev pub count_use : ℕ → ServiceAccount → Option Text → Option Text → AuthDb
  count_use now account client_ip agent =
      if faults.usage_update_fails then db else update_usage account.id now client_ip agent db

-- The identity of a service account's token, with the use counted.
unfoldable pub identity_from_service_account_token :
    AuthSite
    → AuthFaults
    → ℕ
    → Text
    → Option Text
    → Option Text
    → AuthDb
    → Result String Identity × AuthDb
unfolding account_of_token identity_from_user update_usage
identity_from_service_account_token site faults now token client_ip agent db =
    elim (account_of_token site faults db now token client_ip) [
      | err e ↦ (err e, db)
      | ok account ↦
          let counted = count_use site faults db now account client_ip agent in
          (
            identity_from_user site faults counted (record {
              user_id = account.owner_user_id;
              device_id = none;
              service_account_id = some account.id;
              source = service_account;
            }),
            counted,
          )
    ]
