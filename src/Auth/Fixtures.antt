-- ===== src/Auth/Fixtures.antt =====
-- A site with one user, who has a session, and an account of a service.
use zann.Base.{true, false, none, some, [], ◌∷◌, codes, text_eq, ok}
use zann.Core.Structs.{User, Session}
use zann.Core.Enums.UserStatus
use zann.Crypto.Fixtures.{tagging, a_key}
use zann.Sync.Fixtures.{tiny_ext}
use zann.Auth.Store.{AuthDb, AuthSite, AuthFaults}
use zann.Auth.Session.{FreshIds}
use zann.Auth.Login.{LoginRequest}

abbrev pub site_one : AuthSite
site_one = record {
  ext = tiny_ext;
  hash_token = λ t. t;
  hash_service_token = ok;
  verify_hash = λ u stored password. some (text_eq stored password);
  to_uppercase = λ t. t;
  cipher = tagging;
  server_master_key = some a_key;
  internal_enabled = true;
  mode_is_oidc = false;
  personal_vaults_enabled = true;
  access_token_ttl = 60;
  refresh_token_ttl = 3600;
}

abbrev pub no_auth_faults : AuthFaults
no_auth_faults = record {
  users_fail = false;
  sessions_fail = false;
  account_sessions_fail = false;
  accounts_fail = false;
  members_fail = false;
  groups_fail = false;
  permit_fails = false;
  device_insert_fails = false;
  session_insert_fails = false;
  session_update_fails = false;
  session_delete_fails = false;
  account_session_insert_fails = false;
  usage_update_fails = false;
  last_login_update_fails = false;
  vault_begin_fails = false;
  vault_query_fails = false;
  vault_insert_fails = false;
  vault_commit_fails = false;
}

abbrev pub alice_row : User
alice_row = record {
  id = 7;
  email = codes "a@x";
  full_name = some (codes "A");
  password_hash = some (codes "secret");
  kdf_salt = [];
  kdf_algorithm = codes "argon2id";
  kdf_iterations = 1;
  kdf_memory_kb = 1;
  kdf_parallelism = 1;
  recovery_key_hash = none;
  status = UserStatus.active;
  deleted_at = none;
  deleted_by_user_id = none;
  deleted_by_device_id = none;
  row_version = 1;
  created_at = 0;
  updated_at = 0;
  last_login_at = none;
}

abbrev pub old_session : Session
old_session = record {
  id = 30;
  user_id = 7;
  device_id = 9;
  access_token_hash = 41 ∷ [];
  access_expires_at = 100;
  refresh_token_hash = 42 ∷ [];
  expires_at = 1000;
  created_at = 0;
}

abbrev pub other_session : Session
other_session = record old_session {
  id = 31;
  access_token_hash = 43 ∷ [];
  refresh_token_hash = 44 ∷ [];
}

abbrev pub db_one : AuthDb
db_one = record {
  users = alice_row ∷ [];
  devices = [];
  sessions = old_session ∷ (other_session ∷ []);
  service_accounts = [];
  service_account_sessions = [];
  groups = [];
  group_members = [];
  vaults = [];
  vault_members = [];
}

abbrev pub fresh_ids : FreshIds
fresh_ids = record { session_id = 50; access_token = 51; refresh_token = 52 }

abbrev pub login_one : LoginRequest
login_one = record {
  email = codes "a@x";
  password = codes "secret";
  device_name = none;
  device_platform = none;
  device_fingerprint = none;
  device_os = none;
  device_os_version = none;
  device_app_version = none;
}
