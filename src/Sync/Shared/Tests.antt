-- ===== src/Sync/Shared/Tests.antt =====
-- A shared push and pull of one item, in a vault whose key the server can open.
use zann.Base.{◌≡◌, ◌⊎◌, none, some, List, [], ◌∷◌, Text, codes, ok, err}
use zann.Errors.{ServiceError}
use zann.Core.Structs.{Vault}
use zann.Core.Enums.ChangeType
use zann.Crypto.Blob.{Bytes}
use zann.Crypto.Fixtures.{tagging, tagging-IsAead, draws_one, draws_one-IsDrawn, a_key, sealed}
use zann.Sync.Action.{SyncPushChange}
use zann.Sync.Push.{Server, sync_push}
use zann.Sync.Fixtures.{alice, team_vault, server_one, no_faults}
use zann.Sync.Shared.{
  JsonCodec, IsJsonCodec, Keys, SyncSharedPushChange, prepare_shared, sync_shared_push,
}
use zann.Sync.Shared.Sealed.{AllSeal, sync_shared_push-Seals}

abbrev text_codec : JsonCodec Text
text_codec = record { to_vec = some; from_slice = some }

text_codec-IsJsonCodec : IsJsonCodec text_codec
text_codec-IsJsonCodec = record { reads = λ value bytes e. cc }

abbrev keys_one : Keys
keys_one = record {
  cipher = tagging;
  payload_checksum = λ bytes. bytes;
  server_master_key = some a_key;
}

abbrev keyed_server : Server
keyed_server = record server_one {
  access_db = record server_one.access_db {
    vaults = record team_vault { vault_key_enc = sealed a_key } ∷ [];
  };
}

abbrev shared_item : SyncSharedPushChange Text
shared_item = record {
  item_id = 20;
  operation = ChangeType.create;
  payload = some (codes "secret");
  path = some (codes "web/site");
  name = none;
  type_id = some (codes " login ");
  base_seq = none;
}

sync_shared_push-Seals_example :
    ((e : ServiceError) × (sync_shared_push text_codec keys_one keyed_server no_faults alice 1 100
          500
          (λ i. draws_one)
          (shared_item ∷ [])
        ≡ (err e, keyed_server)))
    ⊎ ((vault : Vault) × ((smk : Bytes) × ((changes : List SyncPushChange) × ((prepare_shared
                  keyed_server keys_one alice 1
                  (codes "write")
                  (codes "sync/shared/push")
                ≡ ok (vault, smk))
              × AllSeal text_codec keys_one vault smk (shared_item ∷ []) changes
              × (sync_shared_push text_codec keys_one keyed_server no_faults alice 1 100 500
                    (λ i. draws_one)
                    (shared_item ∷ [])
                  ≡ sync_push keyed_server no_faults alice 1 100 500 changes)))))
sync_shared_push-Seals_example =
    sync_shared_push-Seals text_codec keys_one keyed_server no_faults alice 1 100 500
      (λ i. draws_one) (shared_item ∷ []) tagging-IsAead text_codec-IsJsonCodec
      (λ i. draws_one-IsDrawn)
