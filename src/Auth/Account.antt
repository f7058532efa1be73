-- ===== src/Auth/Account.antt =====
-- crates/zann-server/src/domains/auth/service.rs: `login_service_account`, which gives a session and
-- the keys of the vaults that the account may read.
use zann.Base.{
  ℕ, Bool, ◌&&◌, not, Option, List, [], ◌∷◌, Text, text_eq, starts_with, take, find_first, any,
  String, Result, ok, err, ok_or, ensure, ◌>>=◌, ◌>>◌, ◌==◌, if◌then◌else◌,
}
use zann.Errors.{ServiceError}
use zann.Core.Structs.{ServiceAccount, ServiceAccountSession, Vault}
use zann.Access.Scope.{scopes_allow_vault}
use zann.Access.Vault.{is_none, is_shared_server_vault}
use zann.Crypto.Blob.{Bytes}
use zann.Crypto.Vault.{VaultCryptoError, as_code, decrypt_vault_key}
use zann.Auth.Store.{AuthDb, AuthSite, AuthFaults, unless_fails, accounts_by_prefix}
use zann.Auth.Session.{later}
use zann.Auth.Identify.{account_prefix, account_prefix_len, passed_at, ip_allowed, count_use}

pub record ServiceAccountVaultKey : Type 0 where
  pub vault_id : Text
  pub vault_key : Text

pub record ServiceAccountLoginResponse : Type 0 where
  pub service_account_id : Text
  pub owner_user_id : Text
  pub access_token : Text
  pub expires_in : ℕ
  pub vault_keys : List ServiceAccountVaultKey

abbrev pub with_code : {A : Type 0} → Result VaultCryptoError A → Result String A
with_code (ok a) = ok a
with_code (err e) = err (as_code e)

-- `hash_service_token`, whose error is only logged.
abbrev pub or_kdf : {A : Type 0} → Result String A → Result ServiceError A
or_kdf (ok a) = ok a
or_kdf (err e) = err ServiceError.kdf

-- What a request comes with.
pub record AuthRequestContext : Type 0 where
  pub client_ip : Option Text
  pub request_id : Option Text
  pub user_agent : Option Text

module _ (site : AuthSite) (faults : AuthFaults) where
  -- The vaults whose key an account is given.
  abbrev pub readable : ServiceAccount → List ℕ → Vault → Bool
  readable account seen vault =
      is_shared_server_vault vault
      && (scopes_allow_vault site.ext account.scopes vault && not (any (λ id. id == vault.id) seen))

  -- The loop over the vaults that are not deleted.
  unfoldable pub collect_keys :
      ServiceAccount → Bytes → List ℕ → List Vault → Result String (List ServiceAccountVaultKey)
  unfolding is_shared_server_vault
  collect_keys account smk seen [] = ok []
  collect_keys account smk seen (vault ∷ vaults) =
      let given = readable account seen vault && is_none vault.deleted_at in
      let rest = collect_keys account smk (if given then vault.id ∷ seen else seen) vaults in
      let taken =
        with_code (decrypt_vault_key site.cipher smk vault.id vault.vault_key_enc) >>= λ key.
        rest >>= λ keys. ok (
          record { vault_id = site.ext.uuid_text vault.id; vault_key = site.ext.base64_encode key }
          ∷ keys) in
      if given then taken else rest

  unfoldable pub service_account_vault_keys :
      ServiceAccount → AuthDb → Result String (List ServiceAccountVaultKey)
  unfolding collect_keys
  service_account_vault_keys account db = do
    smk ← ok_or site.server_master_key "smk_missing"
    vaults ← unless_fails faults.vault_query_fails "db_error" db.vaults
    collect_keys account smk [] vaults

  -- The account of the token, which may be used now and from the address.
  unfoldable pub check_account :
      ℕ → Text → AuthRequestContext → AuthDb → Result ServiceError ServiceAccount
  check_account now token ctx db = do
    ensure (starts_with account_prefix token) (ServiceError.unauthorized "invalid_token")
    accounts ←
        unless_fails faults.accounts_fail ServiceError.service_db_error
          (accounts_by_prefix db (take account_prefix_len token))
    ensure (not faults.permit_fails) ServiceError.kdf
    hash ← or_kdf (site.hash_service_token token)
    account ←
        ok_or (find_first (λ a. text_eq a.token_hash hash) accounts)
          (ServiceError.unauthorized "invalid_token")
    ensure (is_none account.revoked_at) (ServiceError.unauthorized "token_revoked")
    ensure (not (passed_at now account.expires_at)) (ServiceError.unauthorized "token_expired")
    ensure (ip_allowed account.allowed_ips ctx.client_ip) (ServiceError.forbidden "ip_not_allowed")
    ok account

  abbrev pub account_session : ℕ → ℕ → ℕ → ServiceAccount → ServiceAccountSession
  account_session now session_id token_id account = record {
    id = session_id;
    service_account_id = account.id;
    access_token_hash = site.hash_token (site.ext.uuid_text token_id);
    expires_at = later now site.access_token_ttl;
    created_at = now;
  }

  abbrev add_account_session : ServiceAccountSession → AuthDb → AuthDb
  add_account_session s db = record db {
    service_account_sessions = s ∷ db.service_account_sessions;
  }

  abbrev answer :
      ServiceAccount
      → ℕ
      → Result String (List ServiceAccountVaultKey)
      → Result ServiceError ServiceAccountLoginResponse
  answer account token_id (err e) = err (ServiceError.internal "vault_keys_failed")
  answer account token_id (ok keys) = ok (record {
    service_account_id = site.ext.uuid_text account.id;
    owner_user_id = site.ext.uuid_text account.owner_user_id;
    access_token = site.ext.uuid_text token_id;
    expires_in = site.access_token_ttl;
    vault_keys = keys;
  })

  abbrev open_account :
      ℕ
      → AuthRequestContext
      → ℕ
      → ℕ
      → AuthDb
      → Result ServiceError ServiceAccount
      → Result ServiceError ServiceAccountLoginResponse × AuthDb
  open_account now ctx session_id token_id db (err e) = (err e, db)
  open_account now ctx session_id token_id db (ok account) =
      let opened = add_account_session (account_session now session_id token_id account) db in
      let counted = count_use site faults opened now account ctx.client_ip ctx.user_agent in
      if faults.account_session_insert_fails
      then (err ServiceError.service_db_error, db)
      else (answer account token_id (service_account_vault_keys account counted), counted)

  unfoldable pub login_service_account :
      ℕ
      → ℕ
      → ℕ
      → Text
      → AuthRequestContext
      → AuthDb
      → Result ServiceError ServiceAccountLoginResponse × AuthDb
  unfolding check_account service_account_vault_keys
  login_service_account now session_id token_id token ctx db =
      open_account now ctx session_id token_id db (check_account now token ctx db)
