-- ===== src/Sync/Pull/Tests.antt =====
-- Two pages of one change each, of a vault with two changes.
use zann.Base.{
  ℕ, ◌≡◌, refl, ℤ, pos, negsuc, Option, none, some, List, [], ◌∷◌, keep, false, codes, ok, text_eq,
  arith,
}
use zann.External.{External}
use zann.Core.Structs.{Change}
use zann.Core.Enums.ChangeOp
use zann.Sync.Push.{Server, SyncPrep, prepare_sync, decode_cursor}
use zann.Sync.Pull.{PullFaults, SyncPullChange, rows_of_vault, after}
use zann.Sync.Pull.Complete.{IsCursorCodec, Pulls, AllShow, sync_pull_complete}
use zann.Sync.Fixtures.{tiny_ext, alice, team_vault, server_one, foreign_item}

abbrev number_of : List ℕ → Option ℤ
number_of [] = none
number_of (n ∷ []) = some (pos n)
number_of (n ∷ (m ∷ rest)) = some (negsuc n)

abbrev bytes_of : ℤ → List ℕ
bytes_of (pos n) = n ∷ []
bytes_of (negsuc n) = n ∷ (1 ∷ [])

abbrev cursor_ext : External
cursor_ext = record tiny_ext { cursor_to_vec = bytes_of; cursor_from_slice = number_of }

cursor_ext-IsCursorCodec : IsCursorCodec cursor_ext
cursor_ext-IsCursorCodec = record { base64 = λ bytes. refl; cursor = back }
  where
    back : (seq : ℤ) → number_of (bytes_of seq) ≡ some seq
    back (pos n) = refl
    back (negsuc n) = refl

abbrev change_at : ℕ → ChangeOp.ChangeOp → Change
change_at seq op = record {
  seq = seq;
  vault_id = 1;
  item_id = 20;
  op = op;
  version = seq;
  device_id = 9;
  created_at = seq;
}

abbrev busy_server : Server
busy_server = record server_one {
  ext = cursor_ext;
  tables = record server_one.tables {
    items = record foreign_item { vault_id = 1 } ∷ [];
    changes = change_at 5 ChangeOp.update ∷ (change_at 2 ChangeOp.create ∷ []);
  };
  next_seq = 6;
}

abbrev no_pull_faults : PullFaults
no_pull_faults = record { rows_fail = false; history_fails = λ seq. false }

abbrev prep_one : SyncPrep
prep_one = record { vault = team_vault; device_id = 9 }

pull_is_prepared : prepare_sync busy_server alice 1 (codes "read") (codes "sync/pull") ≡ ok prep_one
unfolding prepare_sync text_eq zann.Access.Vault.get_vault zann.Access.Vault.access
    zann.Access.Policy.evaluate zann.Access.Policy.from_rules zann.Access.Role.role_permits
pull_is_prepared = refl

from_the_start : decode_cursor cursor_ext none ≡ ok (pos 0)
unfolding decode_cursor
from_the_start = refl

sync_pull_complete_example :
    (changes : List SyncPullChange) × (Pulls busy_server no_pull_faults alice 1 (pos 1) none changes
      × AllShow cursor_ext busy_server.tables no_pull_faults
          (keep (after (pos 0)) (rows_of_vault busy_server.tables 1))
          changes)
sync_pull_complete_example =
    sync_pull_complete busy_server no_pull_faults alice 1 (pos 1) none (pos 0) prep_one
      cursor_ext-IsCursorCodec (omega arith) pull_is_prepared refl from_the_start
