-- ===== src/Vaults/Creation.antt =====
-- crates/zann-server/src/domains/vaults/service.rs: what `create_vault` makes.
use mathlib.Core.Path.{subst}
use zann.Base.{
  ℕ, ◌≡◌, refl, true, false, Bool-cases, inl, inr, ◌⊎◌, ◌||◌, ◌∷◌, Text, none, some, Option-cases,
  ok, Result-cases, arith, ◌==◌, length, trim, is_empty, codes,
}
use zann.Core.Structs.{Identity, Vault, VaultMember}
use zann.Core.Enums.VaultKind.{VaultKind, personal, shared}
use zann.Core.Enums.VaultEncryptionType.{server}
use zann.Access.Policy.{is_allowed}
use zann.Access.Role.{VaultScope, role_permits}
use zann.Access.Vault.{get_vault, get_member, vault_role_allows, is_shared_server_vault}
use zann.Crypto.Blob.{Bytes}
use zann.Crypto.Envelope.{IsAead, Draws}
use zann.Crypto.Vault.{encrypt_vault_key, decrypt_vault_key}
use zann.Crypto.RoundTrip.{IsDrawn, vault_key_round_trip}
use zann.Auth.Store.{AuthDb}
use zann.Auth.PersonalVault.{vault_clashes}
use zann.Vaults.Service.{
  VaultSite, VaultFaults, CreateVaultCommand, access_db, get_by_slug, choose_id, plan_vault,
  creator, clean_all, member_clashes, stored, insert_vault, create_vault,
}

-- The vault that a creation plans.
pub record Plan (site : VaultSite) (draws : Draws) (key : Bytes) (identity : Identity) (v : Vault)
    : Type 0 where
  user : identity.service_account_id ≡ none
  master_key : Bytes
  keyed : site.auth.server_master_key ≡ some master_key
  sealed : encrypt_vault_key site.auth.cipher draws master_key v.id key ≡ ok v.vault_key_enc
  kind : v.kind ≡ shared
  encryption : v.encryption_type ≡ server
  fresh : v.deleted_at ≡ none

kind_cases : (k : VaultKind) → (k ≡ shared) ⊎ (k ≡ personal)
kind_cases shared = inl refl
kind_cases personal = inr refl

module _ (site : VaultSite) (faults : VaultFaults) (now : ℕ) (draws : Draws) (key : Bytes)
    (fresh : ℕ) (identity : Identity) (cmd : CreateVaultCommand) (db : AuthDb) where
  -- The vault of a shared command.
  abbrev shared_vault : ℕ → Bytes → Vault
  shared_vault id enc = record {
    id = id;
    slug = trim cmd.slug;
    name = trim cmd.name;
    kind = cmd.kind;
    encryption_type = server;
    vault_key_enc = enc;
    cache_policy = cmd.cache_policy;
    tags = clean_all cmd.tags;
    deleted_at = none;
    deleted_by_user_id = none;
    deleted_by_device_id = none;
    row_version = 1;
    created_at = now;
  }

  built :
      (v : Vault) (smk : Bytes) (id : ℕ) (enc : Bytes)
      → identity.service_account_id ≡ none
      → site.auth.server_master_key ≡ some smk
      → encrypt_vault_key site.auth.cipher draws smk id key ≡ ok enc
      → cmd.kind ≡ shared
      → shared_vault id enc ≡ v
      → Plan site draws key identity v
  built v smk id enc user keyed sealed kind e = record {
    user = user;
    master_key = smk;
    keyed = keyed;
    sealed = rw (← e) sealed;
    kind = rw (← e) kind;
    encryption = rw (← e) refl;
    fresh = rw (← e) refl;
  }

  plan_vault-Plan :
      (v : Vault)
      → plan_vault site faults now draws key fresh identity cmd db ≡ ok v
      → Plan site draws key identity v
  unfolding plan_vault
  plan_vault-Plan v e = elim (Option-cases identity.service_account_id) [
    | inr (x, a) ↦ absurd (ground (arith, e, a))
    | inl a ↦
        elim (Bool-cases
          (is_allowed site.auth.ext site.policies identity (codes "write") (codes "vaults"))) [
            | inr b ↦ absurd (ground (arith, e, a, b))
            | inl b ↦ elim (Bool-cases (is_empty (trim cmd.slug))) [
              | inl s ↦ absurd (ground (arith, e, a, b, s))
              | inr s ↦ elim (Bool-cases (is_empty (trim cmd.name))) [
                | inl n ↦ absurd (ground (arith, e, a, b, s, n))
                | inr n ↦ elim (kind_cases cmd.kind) [
                  | inr p ↦ absurd (ground (arith, e, a, b, s, n, p))
                  | inl p ↦ elim (Result-cases (get_by_slug faults db (trim cmd.slug))) [
                    | inr (x, g) ↦ absurd (ground (arith, e, a, b, s, n, p, g))
                    | inl (some w, g) ↦ absurd (ground (arith, e, a, b, s, n, p, g))
                    | inl (none, g) ↦ elim (Result-cases (choose_id site faults fresh cmd.id db)) [
                      | inr (x, c) ↦ absurd (ground (arith, e, a, b, s, n, p, g, c))
                      | inl (id, c) ↦ elim (Option-cases site.auth.server_master_key) [
                        | inl m ↦ absurd (ground (arith, e, a, b, s, n, p, g, c, m))
                        | inr (smk, m) ↦
                            elim (Result-cases
                              (encrypt_vault_key site.auth.cipher draws smk id key)) [
                                | inr (x, k) ↦ absurd (ground (arith, e, a, b, s, n, p, g, c, m, k))
                                | inl (enc, k) ↦
                                    built v smk id enc a m k p
                                      (ground (arith, e, a, b, s, n, p, g, c, m, k))
                              ]
                      ]
                    ]
                  ]
                ]
              ]
            ]
          ]
  ]

-- What two inserts that succeed leave.
pub record Inserted (v w : Vault) (m : VaultMember) (db db' : AuthDb) : Type 0 where
  same : v ≡ w
  no_clash : vault_clashes v db.vaults ≡ false
  vaults : db'.vaults ≡ stored v ∷ db.vaults
  members : db'.vault_members ≡ m ∷ db.vault_members

pub insert_vault-Inserted :
    (faults : VaultFaults) (v w : Vault) (m : VaultMember) (db db' : AuthDb)
    → insert_vault faults v m db ≡ (ok w, db')
    → Inserted v w m db db'
unfolding insert_vault
insert_vault-Inserted faults v w m db db' e =
    elim (Bool-cases (faults.vault_insert_fails || vault_clashes v db.vaults)) [
      | inl x ↦ absurd (ground (arith, e, x))
      | inr x ↦
          elim (Bool-cases (faults.member_insert_fails || member_clashes m db.vault_members)) [
            | inl y ↦ absurd (ground (arith, e, x, y))
            | inr y ↦ record {
              same = ground (arith, e, x, y);
              no_clash = ground (arith, x);
              vaults = ground (arith, e, x, y);
              members = ground (arith, e, x, y);
            }
          ]
    ]

-- A vault that is created is shared and has its key under the master key of the server, from which the
-- handlers of its items get it; it is found by its id, and its creator, who is no service account, may
-- do everything in it by role. The cipher keeps its promises, the draws have their sizes, and the
-- tables can be read.
pub create_vault_works :
    (site : VaultSite) (faults faults' : VaultFaults) (now : ℕ) (draws : Draws) (key : Bytes)
    (fresh : ℕ) (identity : Identity) (cmd : CreateVaultCommand) (db db' : AuthDb) (v : Vault)
    (action : Text) (scope : VaultScope)
    → IsAead site.auth.cipher
    → IsDrawn draws
    → length key ≡ 32
    → faults'.vaults_fail ≡ false
    → faults'.members_fail ≡ false
    → create_vault site faults now draws key fresh identity cmd db ≡ (ok v, db')
    → (is_shared_server_vault v ≡ true)
      × ((smk : Bytes) × ((site.auth.server_master_key ≡ some smk)
            × (decrypt_vault_key site.auth.cipher smk v.id v.vault_key_enc ≡ ok key)))
      × (get_vault (access_db faults' db') v.id ≡ ok (some (stored v)))
      × (vault_role_allows site.auth.ext (access_db faults' db') identity v.id action scope
          ≡ ok true)
unfolding create_vault get_vault get_member vault_role_allows is_shared_server_vault role_permits
create_vault_works site faults faults' now draws key fresh identity cmd db db' v action scope aead
      drawn size readable members_readable e =
    elim (Result-cases (plan_vault site faults now draws key fresh identity cmd db)) [
      | inr (x, p) ↦ absurd (ground (arith, e, p))
      | inl (w, p) ↦
          let ins = insert_vault-Inserted faults w v (creator now identity w) db db' (rw p at e) in
          let plan =
            subst (λ x. Plan site draws key identity x) ins.same
              (plan_vault-Plan site faults now draws key fresh identity cmd db w p) in
          let vaults = subst (λ x. db'.vaults ≡ stored x ∷ db.vaults) ins.same ins.vaults in
          let members =
            subst (λ x. db'.vault_members ≡ creator now identity x ∷ db.vault_members) ins.same
              ins.members in
          let own_id : (v.id == v.id) ≡ true = ground arith in
          let own_user : (identity.user_id == identity.user_id) ≡ true = ground arith in
          (
            rw (plan.kind, plan.encryption) refl,
            (
              plan.master_key,
              (
                plan.keyed,
                vault_key_round_trip site.auth.cipher draws plan.master_key v.id key v.vault_key_enc
                    aead drawn size plan.sealed,
              ),
            ),
            rw (readable, vaults, own_id, plan.fresh) refl,
            rw (plan.user, members_readable, members, own_id, own_user) refl,
          )
    ]
