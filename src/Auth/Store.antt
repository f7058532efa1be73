-- ===== src/Auth/Store.antt =====
-- The tables of crates/zann-server/migrations/0001_init.sql that authentication reads and writes, with
-- the queries of crates/zann-db/src/repo/users.rs, sessions.rs, groups.rs and devices.rs.
use zann.Base.{
  ℕ, ◌+◌, Bool, true, false, ◌&&◌, not, Option, some, List, Text, text_eq, find_first, keep, map,
  String, Result, ok, err, ◌==◌, if◌then◌else◌,
}
use zann.External.{External}
use zann.Core.Structs.{
  User, Device, Session, ServiceAccount, ServiceAccountSession, Vault, VaultMember,
}
use zann.Access.Vault.{is_none}
use zann.Crypto.Blob.{Bytes}
use zann.Crypto.Envelope.{Cipher}

pub record Group : Type 0 where
  pub id : ℕ
  pub slug : Text
  pub name : Text
  pub created_at : ℕ

pub record GroupMember : Type 0 where
  pub group_id : ℕ
  pub user_id : ℕ
  pub created_at : ℕ

pub record AuthDb : Type 0 where
  pub users : List User
  pub devices : List Device
  pub sessions : List Session
  pub service_accounts : List ServiceAccount
  pub service_account_sessions : List ServiceAccountSession
  pub groups : List Group
  pub group_members : List GroupMember
  pub vaults : List Vault
  pub vault_members : List VaultMember

-- The configuration, and what crates outside compute: hashes (sha2, argon2) under the peppers of
-- the server, where `none` is an error of `verify_password`, and upper case. A time to live is a number of seconds.
pub record AuthSite : Type 0 where
  pub ext : External
  pub hash_token : Text → Text
  pub hash_service_token : Text → Result String Text
  pub verify_hash : User → Text → Text → Option Bool
  pub to_uppercase : Text → Text
  pub cipher : Cipher
  pub server_master_key : Option Bytes
  pub internal_enabled : Bool
  pub mode_is_oidc : Bool
  pub personal_vaults_enabled : Bool
  pub access_token_ttl : ℕ
  pub refresh_token_ttl : ℕ

-- Which accesses to the database fail during one request, and whether no permit is given for a
-- hash.
pub record AuthFaults : Type 0 where
  pub users_fail : Bool
  pub sessions_fail : Bool
  pub account_sessions_fail : Bool
  pub accounts_fail : Bool
  pub members_fail : Bool
  pub groups_fail : Bool
  pub permit_fails : Bool
  pub device_insert_fails : Bool
  pub session_insert_fails : Bool
  pub session_update_fails : Bool
  pub session_delete_fails : Bool
  pub account_session_insert_fails : Bool
  pub usage_update_fails : Bool
  pub last_login_update_fails : Bool
  pub vault_begin_fails : Bool
  pub vault_query_fails : Bool
  pub vault_insert_fails : Bool
  pub vault_commit_fails : Bool

-- A query that may fail with the given error.
abbrev pub unless_fails {ℓ} : {E : Type 0} {A : Type ℓ} → Bool → E → A → Result E A
unless_fails true e a = err e
unless_fails false e a = ok a

module _ (db : AuthDb) where
  unfoldable pub user_by_id : ℕ → Option User
  user_by_id id = find_first (λ u. u.id == id && is_none u.deleted_at) db.users

  unfoldable pub user_by_email : Text → Option User
  user_by_email email = find_first (λ u. text_eq u.email email && is_none u.deleted_at) db.users

  unfoldable pub session_by_access : Text → Option Session
  session_by_access hash = find_first (λ s. text_eq s.access_token_hash hash) db.sessions

  unfoldable pub session_by_refresh : Text → Option Session
  session_by_refresh hash = find_first (λ s. text_eq s.refresh_token_hash hash) db.sessions

  unfoldable pub account_session_by_access : Text → Option ServiceAccountSession
  account_session_by_access hash =
      find_first (λ s. text_eq s.access_token_hash hash) db.service_account_sessions

  unfoldable pub account_by_id : ℕ → Option ServiceAccount
  account_by_id id = find_first (λ a. a.id == id) db.service_accounts

  abbrev pub accounts_by_prefix : Text → List ServiceAccount
  accounts_by_prefix prefix = keep (λ a. text_eq a.token_prefix prefix) db.service_accounts

  abbrev pub members_of : ℕ → List GroupMember
  members_of user_id = keep (λ m. m.user_id == user_id) db.group_members

  abbrev pub group_by_id : ℕ → Option Group
  group_by_id id = find_first (λ g. g.id == id) db.groups

-- `SessionRepo::update_refresh_token`.
abbrev renew : ℕ → Text → ℕ → Text → ℕ → Session → Session
renew id access_hash access_expires_at refresh_hash expires_at s =
    if s.id == id
    then record s {
      access_token_hash = access_hash;
      access_expires_at = access_expires_at;
      refresh_token_hash = refresh_hash;
      expires_at = expires_at;
    }
    else s

unfoldable pub update_refresh_token : ℕ → Text → ℕ → Text → ℕ → AuthDb → AuthDb
update_refresh_token id access_hash access_expires_at refresh_hash expires_at db = record db {
  sessions = map (renew id access_hash access_expires_at refresh_hash expires_at) db.sessions;
}

-- `SessionRepo::delete_by_refresh_token_hash`.
unfoldable pub delete_by_refresh_token_hash : Text → AuthDb → AuthDb
delete_by_refresh_token_hash hash db = record db {
  sessions = keep (λ s. not (text_eq s.refresh_token_hash hash)) db.sessions;
}

-- `ServiceAccountRepo::update_usage`, with an increment of 1.
unfoldable pub update_usage : ℕ → ℕ → Option Text → Option Text → AuthDb → AuthDb
update_usage id at ip agent db = record db {
  service_accounts =
      map
        (λ (a : ServiceAccount).
          if a.id == id
          then record a {
            last_used_at = some at;
            last_used_ip = ip;
            last_used_user_agent = agent;
            use_count = a.use_count + 1;
          }
          else a)
        db.service_accounts;
}

-- `UserRepo::update_last_login`.
unfoldable pub update_last_login : ℕ → ℕ → ℕ → AuthDb → AuthDb
update_last_login id row_version at db = record db {
  users =
      map
        (λ (u : User).
          if u.id == id && u.row_version == row_version
          then record u {
            last_login_at = some at;
            row_version = u.row_version + 1;
            updated_at = at;
          }
          else u)
        db.users;
}
