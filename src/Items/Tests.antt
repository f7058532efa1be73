-- ===== src/Items/Tests.antt =====
-- The theorems about items at a personal vault of one item, and at a shared vault of a service account.
use zann.Base.{
  Option, ℕ, ◌≡◌, ◌≢◌, refl, true, false, none, some, List, [], ◌∷◌, ◌++◌, All, any, Text, codes,
  text_eq, ok, unwrap_or, arith, ◌+◌,
}
use zann.Core.Structs.{Identity, Item, ItemHistory, Vault, ServiceAccount, AuthSource}
use zann.Core.Enums.VaultMemberRole
use zann.Core.Enums.ChangeType
use zann.Access.Policy.{from_rules}
use zann.Crypto.Fixtures.{draws_one}
use zann.Sync.Fixtures.{alice, team_vault, server_one, foreign_item}
use zann.Sync.Shared.{JsonCodec}
use zann.Auth.PersonalVault.{personal_vault}
use zann.Auth.Fixtures.{site_one, db_one}
use zann.Items.Scopes.{normalize_prefix}
use zann.Items.Store.{ItemDb, ItemSite, ItemFaults, item_by_id, history_at}
use zann.Items.Plan.{UpdateItemCommand, Fresh, Planned}
use zann.Items.Read.{list_items}
use zann.Items.Write.{update_item, delete_item, restore_item_version}
use zann.Items.Written.{Written}
use zann.Items.Updated.{update_item_writes}
use zann.Items.Deleted.{deleted_payload_not_restorable}
use zann.Items.Covered.{IsTidy}
use zann.Items.Listed.{IsPermitted, list_items-IsPermitted}

abbrev robot : ServiceAccount
robot = record {
  id = 60;
  owner_user_id = 7;
  name = codes "robot";
  description = none;
  token_hash = [];
  token_prefix = [];
  scopes = codes "team/prefix:web:read" ∷ [];
  allowed_ips = none;
  expires_at = none;
  last_used_at = none;
  last_used_ip = none;
  last_used_user_agent = none;
  use_count = 0;
  created_at = 0;
  revoked_at = none;
}

abbrev pub item_site : ItemSite
item_site = record {
  vaults = record { auth = site_one; policies = from_rules []; parse_uuid = λ t. none };
  auth_db = record db_one {
    vaults = personal_vault site_one 7 91 0 ∷ (team_vault ∷ []);
    vault_members =
        record { vault_id = 91; user_id = 7; role = VaultMemberRole.admin; created_at = 0 } ∷ [];
    service_accounts = robot ∷ [];
  };
  vault_faults = record {
    vaults_fail = false;
    members_fail = false;
    accounts_fail = false;
    vault_insert_fails = false;
    member_insert_fails = false;
    vault_update_fails = false;
  };
  payload_checksum = λ bytes. bytes;
  attachments_gc_grace_days = 30;
}

abbrev pub no_item_faults : ItemFaults
no_item_faults = record {
  item_read_fails = false;
  history_read_fails = false;
  user_read_fails = false;
  device_read_fails = false;
  item_write_fails = false;
  history_insert_fails = false;
  prune_fails = false;
  change_insert_fails = false;
  mark_fails = false;
  purge_fails = false;
  clear_fails = false;
}

abbrev own_item : Item
own_item = record foreign_item { vault_id = 91; path = codes "web/mail" }

abbrev shared_item : Item
shared_item = record foreign_item { id = 21; vault_id = 1; path = codes "web/site" }

abbrev pub item_db : ItemDb
item_db = record {
  tables = record server_one.tables {
    items = own_item ∷ (shared_item ∷ []);
    item_history = [];
    changes = [];
  };
  attachments = [];
  next_seq = 1;
}

abbrev fresh_one : Fresh
fresh_one = record { now = 1000; item_id = 70; history_id = 71; draws = draws_one }

abbrev pub own_ref : Text
own_ref = codes "personal-" ++ (7 ∷ [])

abbrev identity_codec : JsonCodec Text
identity_codec = record { to_vec = some; from_slice = some }

abbrev new_payload : UpdateItemCommand Text
new_payload = record {
  path = none;
  name = some (codes "post");
  type_id = none;
  tags = none;
  favorite = none;
  payload_enc = some (8 ∷ []);
  payload = none;
  checksum = some (codes "c2");
  version = none;
  base_version = none;
  fields_changed = none;
}

abbrev new_item : Item
new_item = record own_item {
  path = codes "web/post";
  name = codes "post";
  payload_enc = 8 ∷ [];
  checksum = codes "c2";
  version = own_item.version + 1;
  device_id = 9;
  updated_at = 1000;
}

abbrev updated : ItemDb
updated =
    (update_item item_site no_item_faults fresh_one alice own_ref item_db identity_codec 20
      new_payload).1

update_runs :
    update_item item_site no_item_faults fresh_one alice own_ref item_db identity_codec 20
      new_payload
    ≡ (ok (personal_vault site_one 7 91 0, new_item), updated)
unfolding update_item text_eq zann.Access.Policy.evaluate from_rules zann.Access.Role.role_permits
    zann.Base.join zann.Base.split
update_runs = refl

update_item_writes_example :
    (old : Item) × (p : Planned) × (◌≡◌ {A = Vault × Item}
      (personal_vault site_one 7 91 0, new_item)
      (p.vault, p.item))
    × (unwrap_or none old.version ≡ old.version)
    × (p.item.version ≡ unwrap_or none (old.version + 1))
    × Written no_item_faults p old 20 21 item_db updated
update_item_writes_example =
    update_item_writes identity_codec item_site no_item_faults fresh_one alice own_ref item_db
      updated 20 21 new_payload (personal_vault site_one 7 91 0, new_item) (omega arith) update_runs

abbrev emptied : ItemDb
emptied = (delete_item item_site no_item_faults fresh_one alice own_ref item_db 20).1

delete_runs :
    delete_item item_site no_item_faults fresh_one alice own_ref item_db 20 ≡ (ok tt, emptied)
unfolding delete_item text_eq zann.Access.Policy.evaluate from_rules zann.Access.Role.role_permits
delete_runs = refl

abbrev pub last_entry : ItemHistory
last_entry = record {
  id = 71;
  item_id = 20;
  payload_enc = own_item.payload_enc;
  checksum = own_item.checksum;
  version = 3;
  change_type = ChangeType.delete;
  fields_changed = none;
  changed_by_user_id = 7;
  changed_by_email = codes "a@x";
  changed_by_name = none;
  changed_by_device_id = some 9;
  changed_by_device_name = none;
  created_at = 1000;
}

last_entry_located : history_at emptied 20 3 ≡ some last_entry
unfolding history_at delete_item text_eq zann.Access.Policy.evaluate from_rules
    zann.Access.Role.role_permits
last_entry_located = refl

own_item_located : item_by_id item_db 20 ≡ some own_item
unfolding item_by_id
own_item_located = refl

deleted_payload_not_restorable_example : ¬ (
    restore_item_version item_site no_item_faults fresh_one alice own_ref emptied 20 (codes "3") 3
    ≡ (ok (personal_vault site_one 7 91 0, own_item), item_db))
deleted_payload_not_restorable_example =
    deleted_payload_not_restorable item_site no_item_faults no_item_faults fresh_one fresh_one alice
      alice own_ref own_ref item_db emptied item_db 20 3 (codes "3") own_item last_entry
      (personal_vault site_one 7 91 0, own_item) own_item_located delete_runs last_entry_located
      refl

abbrev robot_identity : Identity
robot_identity = record alice {
  source = AuthSource.service_account;
  device_id = none;
  service_account_id = some 60;
}

abbrev asked : Option Text
asked = some (codes "/web/")

list_runs :
    list_items item_site no_item_faults robot_identity (codes "team") item_db asked
    ≡ ok (shared_item ∷ [])
unfolding list_items text_eq zann.Access.Policy.evaluate from_rules zann.Access.Role.role_permits
    zann.Access.Scope.scopes_allow_vault zann.Base.rsplit_once zann.Base.split_once
    zann.Base.starts_with
list_runs = refl

asked-IsTidy : IsTidy (normalize_prefix asked)
unfolding normalize_prefix
asked-IsTidy = refl

list_items-IsPermitted_example : IsPermitted item_site (codes "team") 60 (shared_item ∷ [])
list_items-IsPermitted_example =
    list_items-IsPermitted item_site no_item_faults robot_identity (codes "team") item_db asked
      (shared_item ∷ []) 60 refl asked-IsTidy list_runs
