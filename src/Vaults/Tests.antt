-- ===== src/Vaults/Tests.antt =====
-- The theorems about vaults at the site of the fixtures: alice makes a vault, and deletes her own.
use zann.Base.{
  if◌then◌else◌, ◌≡◌, refl, true, false, none, some, [], ◌∷◌, ◌++◌, Text, codes, text_eq, ok, err,
}
use zann.Errors.{ServiceError}
use zann.Core.Structs.{Vault}
use zann.Core.Enums.VaultKind
use zann.Core.Enums.CachePolicy
use zann.Core.Enums.VaultEncryptionType
use zann.Access.Policy.{from_rules, allow_all}
use zann.Access.Role.{VaultScope}
use zann.Access.Vault.{get_vault, vault_role_allows, is_shared_server_vault}
use zann.Crypto.Blob.{Bytes}
use zann.Crypto.Vault.{decrypt_vault_key}
use zann.Crypto.Fixtures.{tagging, tagging-IsAead, draws_one, draws_one-IsDrawn, a_key, sealed}
use zann.Sync.Fixtures.{alice}
use zann.Auth.Store.{AuthDb, user_by_email}
use zann.Auth.Session.{LoginResponse}
use zann.Auth.PersonalVault.{ensure_personal_vault}
use zann.Auth.Login.{login_internal}
use zann.Auth.Fixtures.{site_one, no_auth_faults, alice_row, db_one, fresh_ids, login_one}
use zann.Vaults.Service.{
  find_vault, VaultSite, VaultFaults, CreateVaultCommand, access_db, stored, create_vault,
}
use zann.Vaults.Existing.{fetch_vault, update_vault_key, delete_vault, writable}
use zann.Vaults.Absent.{Distinct}
use zann.Vaults.Creation.{create_vault_works}
use zann.Auth.LockedOut.{slug_in_use}
use zann.Vaults.Absent.{has_other_vault}
use zann.Vaults.Deletion.{delete_vault_hides, delete_vault_locks_out}

abbrev vault_site : VaultSite
vault_site = record {
  auth = site_one;
  policies = from_rules [];
  parse_uuid = λ t. if text_eq t (codes "id-91") then some 91 else none;
}

abbrev no_vault_faults : VaultFaults
no_vault_faults = record {
  vaults_fail = false;
  members_fail = false;
  accounts_fail = false;
  vault_insert_fails = false;
  member_insert_fails = false;
  vault_update_fails = false;
}

-- What a first login leaves.
abbrev home : AuthDb
home = (ensure_personal_vault site_one no_auth_faults 7 91 500 db_one).1

abbrev team_command : CreateVaultCommand
team_command = record {
  id = none;
  slug = codes " team ";
  name = codes "Team";
  kind = VaultKind.shared;
  cache_policy = CachePolicy.full;
  vault_key_enc = none;
  tags = none;
}

abbrev own_ref : Text
own_ref = codes "personal-" ++ (7 ∷ [])

abbrev emptied : AuthDb
emptied = (delete_vault vault_site no_vault_faults 600 alice own_ref home).1

delete_runs : delete_vault vault_site no_vault_faults 600 alice own_ref home ≡ (ok tt, emptied)
unfolding delete_vault ensure_personal_vault text_eq zann.Access.Policy.evaluate from_rules
    zann.Access.Role.role_permits
delete_runs = refl

abbrev own_vault : Vault
own_vault = record {
  id = 91;
  slug = own_ref;
  name = codes "Personal";
  kind = VaultKind.personal;
  encryption_type = VaultEncryptionType.client;
  vault_key_enc = [];
  cache_policy = CachePolicy.full;
  tags = some [];
  deleted_at = none;
  deleted_by_user_id = none;
  deleted_by_device_id = none;
  row_version = 1;
  created_at = 500;
}

own_vault-writable : writable vault_site no_vault_faults alice own_ref home ≡ ok own_vault
unfolding zann.Vaults.Existing.authorise_vault ensure_personal_vault text_eq
    zann.Access.Policy.evaluate from_rules zann.Access.Role.role_permits
own_vault-writable = refl

alice_located : user_by_email home (codes "a@x") ≡ some alice_row
unfolding user_by_email text_eq ensure_personal_vault
alice_located = refl

home-Distinct : Distinct home.vaults
unfolding ensure_personal_vault
home-Distinct = (tt, tt)

same_vault :
    find_vault vault_site no_vault_faults home (codes "id-91")
    ≡ find_vault vault_site no_vault_faults home own_ref
unfolding find_vault text_eq ensure_personal_vault
same_vault = refl

delete_vault_hides_example :
    (fetch_vault vault_site no_vault_faults alice (codes "id-91") emptied
      ≡ err ServiceError.not_found)
    × (delete_vault vault_site no_vault_faults 700 alice (codes "id-91") emptied
        ≡ (err ServiceError.not_found, emptied))
    × (update_vault_key vault_site no_vault_faults alice (codes "id-91") (1 ∷ []) emptied
        ≡ (err ServiceError.not_found, emptied))
delete_vault_hides_example =
    delete_vault_hides vault_site no_vault_faults no_vault_faults 600 700 alice alice own_ref
      (codes "id-91") (1 ∷ []) home emptied home-Distinct refl refl same_vault delete_runs

abbrev answer : LoginResponse
answer = record { access_token = 51 ∷ []; refresh_token = 52 ∷ []; expires_in = 60 }

own_slug_in_use : slug_in_use site_one 7 home ≡ true
unfolding ensure_personal_vault text_eq
own_slug_in_use = refl

no_other_vault : has_other_vault 7 own_vault home ≡ false
unfolding ensure_personal_vault
no_other_vault = refl

-- A failed login has left a device.
abbrev later : AuthDb
later = record emptied { devices = [] }

delete_vault_locks_out_example : ¬ (
    login_internal site_one no_auth_faults 800 fresh_ids 92 93 login_one later
    ≡ (ok answer, emptied))
delete_vault_locks_out_example =
    delete_vault_locks_out vault_site no_vault_faults no_auth_faults 600 800 alice own_ref own_vault
      home emptied later emptied alice_row fresh_ids 92 93 login_one answer own_vault-writable
      delete_runs (refl, refl, refl) alice_located refl own_slug_in_use no_other_vault

abbrev open_site : VaultSite
open_site = record vault_site { policies = allow_all }

abbrev team : Vault
team = record {
  id = 94;
  slug = codes "team";
  name = codes "Team";
  kind = VaultKind.shared;
  encryption_type = VaultEncryptionType.server;
  vault_key_enc = sealed a_key;
  cache_policy = CachePolicy.full;
  tags = none;
  deleted_at = none;
  deleted_by_user_id = none;
  deleted_by_device_id = none;
  row_version = 1;
  created_at = 600;
}

abbrev extended : AuthDb
extended = (create_vault open_site no_vault_faults 600 draws_one a_key 94 alice team_command home).1

create_runs :
    create_vault open_site no_vault_faults 600 draws_one a_key 94 alice team_command home
    ≡ (ok team, extended)
unfolding create_vault ensure_personal_vault text_eq allow_all zann.Crypto.Envelope.encrypt_blob
    zann.Crypto.Envelope.wrap_dek
create_runs = refl

create_vault_works_example :
    (is_shared_server_vault team ≡ true)
    × ((smk : Bytes) × ((site_one.server_master_key ≡ some smk)
          × (decrypt_vault_key tagging smk 94 (sealed a_key) ≡ ok a_key)))
    × (get_vault (access_db no_vault_faults extended) 94 ≡ ok (some (stored team)))
    × (vault_role_allows site_one.ext
          (access_db no_vault_faults extended)
          alice
          94
          (codes "rotate_start")
          VaultScope.items
        ≡ ok true)
create_vault_works_example =
    create_vault_works open_site no_vault_faults no_vault_faults 600 draws_one a_key 94 alice
      team_command home extended team (codes "rotate_start") VaultScope.items tagging-IsAead
      draws_one-IsDrawn refl refl refl create_runs
