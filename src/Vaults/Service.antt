-- ===== src/Vaults/Service.antt =====
-- crates/zann-server/src/domains/vaults/service.rs with the statements of
-- crates/zann-db/src/repo/vaults.rs: the handlers for one vault. The clock, the fresh id, the fresh key
-- and the random draws of its encryption are arguments.
use zann.Base.{
  String, ℕ, Bool, ◌&&◌, ◌||◌, not, Option, none, some, List, [], ◌∷◌, Text, codes, text_eq,
  is_empty, trim, take, map, keep, any, find_first, unwrap_or, Result, ok, err, ok_or, ensure,
  ◌>>=◌, ◌>>◌, ◌==◌, if◌then◌else◌,
}
use zann.Errors.{ServiceError}
use zann.Core.Structs.{Identity, Vault, VaultMember}
use zann.Core.Enums.VaultKind.{VaultKind, personal, shared}
use zann.Core.Enums.VaultEncryptionType.{VaultEncryptionType, client, server}
use zann.Core.Enums.VaultMemberRole.{admin}
use zann.Core.Enums.CachePolicy.{CachePolicy}
use zann.Access.Policy.{PolicySet, is_allowed}
use zann.Access.Vault.{AccessDb, SqlError, is_none, get_vault}
use zann.Crypto.Blob.{Bytes}
use zann.Crypto.Envelope.{Draws}
use zann.Crypto.Vault.{encrypt_vault_key}
use zann.Auth.Store.{AuthDb, AuthSite, unless_fails}
use zann.Auth.PersonalVault.{vault_clashes}

pub record VaultSite : Type 0 where
  pub auth : AuthSite
  pub policies : PolicySet
  pub parse_uuid : Text → Option ℕ

-- Which accesses to the database fail during one request.
pub record VaultFaults : Type 0 where
  pub vaults_fail : Bool
  pub members_fail : Bool
  pub accounts_fail : Bool
  pub vault_insert_fails : Bool
  pub member_insert_fails : Bool
  pub vault_update_fails : Bool

pub record CreateVaultCommand : Type 0 where
  pub id : Option Text
  pub slug : Text
  pub name : Text
  pub kind : VaultKind
  pub cache_policy : CachePolicy
  pub vault_key_enc : Option Bytes
  pub tags : Option (List Text)

abbrev pub or_db_error : {A : Type 0} → Result SqlError A → Result ServiceError A
or_db_error (ok a) = ok a
or_db_error (err e) = err ServiceError.service_db_error

abbrev or_internal : {E A : Type 0} → Result E A → Result ServiceError A
or_internal (ok a) = ok a
or_internal (err e) = err (ServiceError.internal "vault_key_encrypt_failed")

abbrev pub access_db : VaultFaults → AuthDb → AccessDb
access_db faults db = record {
  vaults = db.vaults;
  vault_members = db.vault_members;
  service_accounts = db.service_accounts;
  vaults_fail = faults.vaults_fail;
  members_fail = faults.members_fail;
  accounts_fail = faults.accounts_fail;
}

-- `VaultRepo::get_by_slug`.
unfoldable pub get_by_slug : VaultFaults → AuthDb → Text → Result ServiceError (Option Vault)
get_by_slug faults db slug =
    unless_fails faults.vaults_fail ServiceError.service_db_error
      (find_first (λ v. text_eq v.slug slug && is_none v.deleted_at) db.vaults)

abbrev pub by_id : VaultFaults → AuthDb → ℕ → Result ServiceError (Option Vault)
by_id faults db id = or_db_error (get_vault (access_db faults db) id)

unfoldable pub find_vault :
    VaultSite → VaultFaults → AuthDb → Text → Result ServiceError (Option Vault)
unfolding get_vault get_by_slug
find_vault site faults db vault_id = elim (site.parse_uuid vault_id) [
  | some uuid ↦ by_id faults db uuid
  | none ↦ get_by_slug faults db vault_id
]

-- `.trim()`, without the empty ones, at most MAX_TAGS of them.
unfoldable pub clean_tags : List Text → Option (List Text)
unfolding trim
clean_tags tags =
    let kept = take 50 (keep (λ t. not (is_empty t)) (map trim tags)) in
    if is_empty kept then none else some kept

abbrev pub clean_all : Option (List Text) → Option (List Text)
clean_all none = none
clean_all (some tags) = clean_tags tags

-- `VaultRepo::create`, which stores no tags as an empty list.
abbrev pub stored : Vault → Vault
stored v = record v { tags = some (unwrap_or v.tags []) }

abbrev add_vault : Vault → AuthDb → AuthDb
add_vault v db = record db { vaults = stored v ∷ db.vaults }

abbrev add_member : VaultMember → AuthDb → AuthDb
add_member m db = record db { vault_members = m ∷ db.vault_members }

-- The primary key of `vault_members`.
abbrev pub member_clashes : VaultMember → List VaultMember → Bool
member_clashes m members = any (λ o. o.vault_id == m.vault_id && o.user_id == m.user_id) members

-- The two inserts, which are not in a transaction.
unfoldable pub insert_vault :
    VaultFaults → Vault → VaultMember → AuthDb → Result ServiceError Vault × AuthDb
insert_vault faults v m db =
    if faults.vault_insert_fails || vault_clashes v db.vaults
    then (err ServiceError.service_db_error, db)
    else if faults.member_insert_fails || member_clashes m db.vault_members
    then (err ServiceError.service_db_error, add_vault v db)
    else (ok v, add_member m (add_vault v db))

abbrev pub creator : ℕ → Identity → Vault → VaultMember
creator now identity v = record {
  vault_id = v.id;
  user_id = identity.user_id;
  role = admin;
  created_at = now;
}

module _ (site : VaultSite) (faults : VaultFaults) where
  abbrev not_taken : String → Option Vault → Result ServiceError (Unit {0})
  not_taken code row = ensure (is_none row) (ServiceError.bad_request code)

  unfoldable pub choose_id : ℕ → Option Text → AuthDb → Result ServiceError ℕ
  unfolding get_vault
  choose_id fresh none db = ok fresh
  choose_id fresh (some id) db = do
    parsed ← ok_or (site.parse_uuid id) (ServiceError.bad_request "invalid_id")
    row ← by_id faults db parsed
    not_taken "id_taken" row
    ok parsed

  abbrev refuse_kind : VaultKind → Result ServiceError (Unit {0})
  refuse_kind shared = ok tt
  refuse_kind personal =
      if not site.auth.personal_vaults_enabled
      then err (ServiceError.forbidden "personal_disabled")
      else err (ServiceError.forbidden "personal_managed")

  -- The encryption of the vault and its key.
  abbrev key_of :
      Draws
      → Bytes
      → ℕ
      → VaultKind
      → Option Bytes
      → Result ServiceError (VaultEncryptionType × Bytes)
  key_of draws key vault_id shared given = do
    smk ← ok_or site.auth.server_master_key (ServiceError.internal "smk_missing")
    vault_key_enc ← or_internal (encrypt_vault_key site.auth.cipher draws smk vault_id key)
    ok (server, vault_key_enc)
  key_of draws key vault_id personal given = do
    vault_key_enc ← ok_or given (ServiceError.bad_request "vault_key_missing")
    ok (client, vault_key_enc)

  -- What `create_vault` does before it writes: the vault.
  unfoldable pub plan_vault :
      ℕ → Draws → Bytes → ℕ → Identity → CreateVaultCommand → AuthDb → Result ServiceError Vault
  unfolding is_allowed get_by_slug choose_id clean_tags encrypt_vault_key trim
  plan_vault now draws key fresh identity cmd db = do
    ensure (is_none identity.service_account_id) ServiceError.forbidden_no_body
    ensure (is_allowed site.auth.ext site.policies identity (codes "write") (codes "vaults"))
        ServiceError.forbidden_no_body
    let slug = trim cmd.slug
    let name = trim cmd.name
    ensure (not (is_empty slug)) (ServiceError.bad_request "invalid_slug")
    ensure (not (is_empty name)) (ServiceError.bad_request "invalid_name")
    refuse_kind cmd.kind
    same ← get_by_slug faults db slug
    not_taken "slug_taken" same
    vault_id ← choose_id fresh cmd.id db
    sealed ← key_of draws key vault_id cmd.kind cmd.vault_key_enc
    ok (record {
      id = vault_id;
      slug = slug;
      name = name;
      kind = cmd.kind;
      encryption_type = sealed.0;
      vault_key_enc = sealed.1;
      cache_policy = cmd.cache_policy;
      tags = clean_all cmd.tags;
      deleted_at = none;
      deleted_by_user_id = none;
      deleted_by_device_id = none;
      row_version = 1;
      created_at = now;
    })

  abbrev pub write_vault :
      ℕ → Identity → AuthDb → Result ServiceError Vault → Result ServiceError Vault × AuthDb
  write_vault now identity db (err e) = (err e, db)
  write_vault now identity db (ok v) = insert_vault faults v (creator now identity v) db

  unfoldable pub create_vault :
      ℕ
      → Draws
      → Bytes
      → ℕ
      → Identity
      → CreateVaultCommand
      → AuthDb
      → Result ServiceError Vault × AuthDb
  unfolding plan_vault insert_vault
  create_vault now draws key fresh identity cmd db =
      write_vault now identity db (plan_vault now draws key fresh identity cmd db)
