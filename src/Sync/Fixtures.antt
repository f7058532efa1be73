-- ===== src/Sync/Fixtures.antt =====
-- A small server with one vault and one member, and changes to push to it.
use zann.Base.{false, none, some, [], ◌∷◌, codes}
use zann.External.{External}
use zann.Core.Structs.{Identity, Vault, Item, AuthSource}
use zann.Core.Enums.VaultKind
use zann.Core.Enums.VaultEncryptionType
use zann.Core.Enums.VaultMemberRole
use zann.Core.Enums.CachePolicy
use zann.Core.Enums.ChangeType
use zann.Core.Enums.SyncStatus
use zann.Access.Policy.{from_rules}
use zann.Sync.Action.{SyncPushChange}
use zann.Sync.Push.{Server, PushFaults}
use zann.Sync.Steps.{Context}

abbrev pub tiny_ext : External
tiny_ext = record {
  uuid_text = λ n. n ∷ [];
  rfc3339 = λ n. n ∷ [];
  glob = λ p. none;
  base64_encode = λ bytes. bytes;
  base64_decode = some;
  cursor_to_vec = λ _. [];
  cursor_from_slice = λ _. none;
}

abbrev pub alice : Identity
alice = record {
  user_id = 7;
  email = codes "a@x";
  display_name = codes "A";
  avatar_url = none;
  avatar_initials = codes "A";
  groups = [];
  source = AuthSource.internal;
  device_id = some 9;
  service_account_id = none;
}

abbrev pub team_vault : Vault
team_vault = record {
  id = 1;
  slug = codes "team";
  name = codes "Team";
  kind = VaultKind.shared;
  encryption_type = VaultEncryptionType.server;
  vault_key_enc = [];
  cache_policy = CachePolicy.full;
  tags = none;
  deleted_at = none;
  deleted_by_user_id = none;
  deleted_by_device_id = none;
  row_version = 1;
  created_at = 0;
}

abbrev pub server_one : Server
server_one = record {
  ext = tiny_ext;
  policies = from_rules [];
  access_db = record {
    vaults = team_vault ∷ [];
    vault_members =
        record { vault_id = 1; user_id = 7; role = VaultMemberRole.member; created_at = 0 } ∷ [];
    service_accounts = [];
    vaults_fail = false;
    members_fail = false;
    accounts_fail = false;
  };
  tables = record { users = []; devices = []; items = []; item_history = []; changes = [] };
  next_seq = 1;
}

abbrev pub no_faults : PushFaults
no_faults = record {
  begin_fails = false;
  isolation_fails = false;
  budget = none;
  rollback_fails = false;
  commit_fails = false;
  last_seq_fails = false;
}

abbrev pub new_item : SyncPushChange
new_item = record {
  item_id = 20;
  operation = ChangeType.create;
  payload_enc = some (1 ∷ 2 ∷ []);
  checksum = some (codes "c1");
  path = some (codes "web/site");
  name = none;
  type_id = some (codes "login");
  base_seq = none;
}

abbrev pub edit_item : SyncPushChange
edit_item = record new_item {
  operation = ChangeType.update;
  payload_enc = some (3 ∷ []);
  checksum = some (codes "c2");
  path = none;
  name = some (codes "mail");
}

abbrev pub context_one : Context
context_one = record {
  ext = tiny_ext;
  identity = alice;
  device_id = 9;
  vault_id = 1;
  now = 100;
  history_id = 500;
}

-- An item of another vault than `team_vault`.
abbrev pub foreign_item : Item
foreign_item = record {
  id = 20;
  vault_id = 2;
  path = codes "web/bank";
  name = codes "bank";
  type_id = codes "login";
  tags = none;
  favorite = false;
  payload_enc = 5 ∷ [];
  checksum = codes "c0";
  version = 3;
  row_version = 3;
  device_id = 4;
  sync_status = SyncStatus.active;
  deleted_at = none;
  deleted_by_user_id = none;
  deleted_by_device_id = none;
  created_at = 10;
  updated_at = 20;
}

abbrev pub remove_item : SyncPushChange
remove_item = record new_item {
  operation = ChangeType.delete;
  payload_enc = none;
  checksum = none;
  path = none;
  type_id = none;
}
