-- ===== src/Auth/PersonalVault.antt =====
-- crates/zann-server/src/domains/auth/helpers.rs: `ensure_personal_vault`, which runs in a transaction
-- of its own. After a failed statement PostgreSQL refuses the rest of the transaction, so that the
-- queries that look again for a vault fail too.
use zann.Base.{
  ℕ, Bool, true, false, ◌&&◌, ◌||◌, none, some, List, [], ◌∷◌, ◌++◌, Text, codes, text_eq, any,
  String, Result, ok, err, not, ◌==◌, if◌then◌else◌,
}
use zann.Core.Structs.{Vault, VaultMember}
use zann.Core.Enums.VaultKind.{VaultKind, personal, shared}
use zann.Core.Enums.VaultEncryptionType
use zann.Core.Enums.VaultMemberRole
use zann.Core.Enums.CachePolicy
use zann.Access.Vault.{is_none}
use zann.Auth.Store.{AuthDb, AuthSite, AuthFaults}

abbrev pub is_personal : VaultKind → Bool
is_personal personal = true
is_personal shared = false

-- A personal vault of the user that is not deleted.
abbrev pub owned_by : ℕ → List VaultMember → Vault → Bool
owned_by user_id members v =
    is_personal v.kind
    && (is_none v.deleted_at && any (λ m. m.vault_id == v.id && m.user_id == user_id) members)

abbrev pub has_personal_vault : ℕ → AuthDb → Bool
has_personal_vault user_id db = any (owned_by user_id db.vault_members) db.vaults

abbrev pub personal_slug : AuthSite → ℕ → Text
personal_slug site user_id = codes "personal-" ++ site.ext.uuid_text user_id

abbrev pub personal_vault : AuthSite → ℕ → ℕ → ℕ → Vault
personal_vault site user_id vault_id now = record {
  id = vault_id;
  slug = personal_slug site user_id;
  name = codes "Personal";
  kind = personal;
  encryption_type = VaultEncryptionType.client;
  vault_key_enc = [];
  cache_policy = CachePolicy.full;
  tags = some [];
  deleted_at = none;
  deleted_by_user_id = none;
  deleted_by_device_id = none;
  row_version = 1;
  created_at = now;
}

-- The primary key and `slug TEXT NOT NULL UNIQUE` of `vaults`, deleted rows included.
abbrev pub vault_clashes : Vault → List Vault → Bool
vault_clashes v vaults = any (λ w. w.id == v.id || text_eq w.slug v.slug) vaults

abbrev with_vault : Vault → VaultMember → AuthDb → AuthDb
with_vault v m db = record db { vaults = v ∷ db.vaults; vault_members = m ∷ db.vault_members }

unfoldable pub ensure_personal_vault :
    AuthSite → AuthFaults → ℕ → ℕ → ℕ → AuthDb → Result String (Unit {0}) × AuthDb
ensure_personal_vault site faults user_id vault_id now db =
    let v = personal_vault site user_id vault_id now in
    let m : VaultMember = record {
      vault_id = vault_id;
      user_id = user_id;
      role = VaultMemberRole.admin;
      created_at = now;
    } in
    if not site.personal_vaults_enabled
    then (ok tt, db)
    else if faults.vault_begin_fails || faults.vault_query_fails
    then (err "db_error", db)
    else if has_personal_vault user_id db
    then if faults.vault_commit_fails then (err "db_error", db) else (ok tt, db)
    else if faults.vault_insert_fails || vault_clashes v db.vaults
    then (err "db_error", db)
    else if faults.vault_commit_fails
    then (err "db_error", db)
    else (ok tt, with_vault v m db)
