-- ===== src/Rotation/Fixtures.antt =====
-- A server with one shared vault and an item with a password, for rotations.
use zann.Base.{ℕ, ◌≡◌, refl, false, none, some, List, [], ◌∷◌, codes, Option, Text}
use mathlib.Core.List.{Perm}
use mathlib.Core.List.Perm
use mathlib.Core.Path.{subst, ap}
use zann.Core.Enums.VaultMemberRole
use zann.Access.Policy.{from_rules}
use zann.Crypto.Blob.{Bytes}
use zann.Crypto.Vault.{
  FieldKind, password, text, url, otp, note, FieldMeta, FieldValue, EncryptedPayload, PayloadJson,
}
use zann.Crypto.Fixtures.{tagging, a_key, sealed}
use zann.Sync.Fixtures.{tiny_ext, team_vault, foreign_item}
use zann.Rotation.Types.{RotationRow, rotation_state_rotating}
use zann.Rotation.Store.{Site, ItemRow, RotationDb, RotationFaults}
use zann.Rotation.Commit.{Clock}
use zann.Rotation.Outcome.{IsPayloadJson}

-- The JSON of payloads with one nameless password and nothing else.
abbrev encode_field : FieldKind → Text → Option FieldMeta → Option Bytes
encode_field password value none = some value
encode_field _ value meta = none

abbrev encode_fields : Text → List (Text × FieldValue) → Option Bytes
encode_fields (c ∷ cs) fields = none
encode_fields [] [] = none
encode_fields [] ((c ∷ cs, f) ∷ fields) = none
encode_fields [] (([], f) ∷ (g ∷ fields)) = none
encode_fields [] (([], f) ∷ []) = encode_field f.kind f.value f.meta

abbrev one_password : Text → EncryptedPayload
one_password value = record {
  v = 1;
  type_id = [];
  fields = ([], record { kind = password; value = value; meta = none }) ∷ [];
  extra = none;
}

abbrev field_of : FieldKind → Text → Option FieldMeta → FieldValue
field_of kind value meta = record { kind = kind; value = value; meta = meta }

some_injective {ℓ} : {A : Type ℓ} {a b : A} → some b ≡ some a → a ≡ b
some_injective e = cc

field_reads :
    (kind : FieldKind) (value : Text) (meta : Option FieldMeta) (bytes : Bytes)
    → encode_field kind value meta ≡ some bytes
    → field_of password bytes none ≡ field_of kind value meta
field_reads password value none bytes e = ap (λ v. field_of password v none) (some_injective e)
field_reads password value (some m) bytes e = cc
field_reads text value meta bytes e = cc
field_reads url value meta bytes e = cc
field_reads otp value meta bytes e = cc
field_reads note value meta bytes e = cc

encode_reads :
    (type_id : Text) (fields : List (Text × FieldValue)) (bytes : Bytes)
    → encode_fields type_id fields ≡ some bytes
    → ([] ≡ type_id) × ((one_password bytes).fields ≡ fields)
encode_reads (c ∷ cs) fields bytes e = cc
encode_reads [] [] bytes e = cc
encode_reads [] ((c ∷ cs, f) ∷ fields) bytes e = cc
encode_reads [] (([], f) ∷ (g ∷ fields)) bytes e = cc
encode_reads [] (([], f) ∷ []) bytes e =
    (refl, ap (λ g. ([], g) ∷ []) (field_reads f.kind f.value f.meta bytes e))

abbrev pub tiny_json : PayloadJson
tiny_json = record {
  to_vec = λ p. encode_fields p.type_id p.fields;
  from_slice = λ bytes. some (one_password bytes);
}

pub tiny_json-IsPayloadJson : IsPayloadJson tiny_json
tiny_json-IsPayloadJson = record {
  reads = λ p bytes e.
      let same = encode_reads p.type_id p.fields bytes e in
      (
        one_password bytes,
        (refl, (same.0, subst (λ fs. Perm (one_password bytes).fields fs) same.1 (Perm.refl _))),
      );
}

abbrev pub rotation_site : Site
rotation_site = record {
  ext = tiny_ext;
  policies = from_rules [];
  access_db = record {
    vaults = record team_vault { vault_key_enc = sealed a_key } ∷ [];
    vault_members =
        record { vault_id = 1; user_id = 7; role = VaultMemberRole.operator; created_at = 0 } ∷ [];
    service_accounts = [];
    vaults_fail = false;
    members_fail = false;
    accounts_fail = false;
  };
  cipher = tagging;
  json = tiny_json;
  blake3_hex = λ bytes. [];
  server_master_key = some a_key;
  lock_ttl = 50;
  stale_retention = 100;
  max_versions = 5;
}

abbrev pub all_well : RotationFaults
all_well = record {
  item_fails = false;
  rotation_fails = false;
  normalize_fails = false;
  write_fails = false;
  acquire_fails = false;
  begin_fails = false;
  select_fails = false;
  history_fails = false;
  commit_fails = false;
  prune_fails = false;
  user_fails = false;
  device_fails = false;
}

-- A rotation that runs until 150 and can be recovered until 250.
abbrev pub running : RotationRow
running = record {
  state = some rotation_state_rotating;
  candidate_enc = some (sealed (codes "new"));
  started_at = some 100;
  started_by = some 7;
  expires_at = some 150;
  recover_until = some 250;
  aborted_reason = none;
}

abbrev pub password_row : ItemRow
password_row = record {
  item = record foreign_item { vault_id = 1; payload_enc = sealed (codes "old") };
  rotation = running;
}

abbrev pub rotation_db : RotationDb
rotation_db = record { rows = password_row ∷ []; item_history = []; users = []; devices = [] }

abbrev pub clock_at : ℕ → Clock
clock_at now = record { at_expiry = now; at_recovery = now; at_write = now }
