-- ===== src/Sync/Authorised.antt =====
-- crates/zann-server/src/domains/sync/service.rs with access_control/http.rs and policies.rs: who may
-- push.
use zann.Base.{
  ℕ, ◌≡◌, ◌≢◌, ◌⊎◌, refl, sym, ◌∙◌, true, ◌||◌, ◌&&◌, any, Bool-cases, inl, inr, Option, none, some,
  Option-cases, Result-cases, List, find_first, false, Text, text_eq, codes, ok, arith, ◌==◌,
}
use zann.External.{External}
use zann.Core.Structs.{Identity, Vault, VaultMember}
use zann.Core.Enums.VaultMemberRole.{VaultMemberRole, admin, operator, member, readonly}
use zann.Access.Policy.{PolicySet}
use zann.Access.Policy.Order.{denies, applies, evaluate-decide}
use zann.Access.Role.{sync, role_permits}
use zann.Access.Vault.{
  AccessDb, is_none, get_vault, get_member, access, vault_role_allows, service_account_allows,
}
use zann.Sync.Action.{SyncPushChange}
use zann.Sync.Push.{Server, PushFaults, SyncPrep, SyncPushResult, prepare_sync, sync_push}

abbrev write : Text
write = codes "write"

-- The user is a member of the vault and not a mere reader.
abbrev pub Writes : AccessDb → Identity → ℕ → Type 0
Writes db identity vault_id =
    (identity.service_account_id ≡ none)
    × ((m : VaultMember) × ((find_first
              (λ m. m.vault_id == vault_id && m.user_id == identity.user_id) db.vault_members
            ≡ some m)
          × (m.role ≢ readonly)))

-- The grounds of a push: a device, a live vault, no policy that denies it, and either a policy (or the
-- default) that allows it or, where none is about it, a membership.
pub record Entitled (s : Server) (identity : Identity) (vault_id : ℕ) : Type 0 where
  pub device : identity.device_id ≢ none
  pub vault : Vault
  pub found :
      find_first (λ v. v.id == vault_id && is_none v.deleted_at) s.access_db.vaults ≡ some vault
  pub undenied :
      any (denies s.ext identity (codes "write") (codes "sync/push")) s.policies.rules ≡ false
  pub allowed :
      ((any (applies s.ext identity (codes "write") (codes "sync/push")) s.policies.rules
          || s.policies.default_allow)
        ≡ true)
      ⊎ Writes s.access_db identity vault.id

may_write : (role : VaultMemberRole) → role_permits role write sync ≡ true → role ≢ readonly
unfolding role_permits text_eq
may_write admin e q = cc
may_write operator e q = cc
may_write member e q = cc
may_write readonly e q = cc

no_account_writes :
    (ext : External) (db : AccessDb) (id : ℕ) (v : Vault)
    → service_account_allows ext db id v write sync ≡ ok false
unfolding service_account_allows text_eq
no_account_writes ext db id v = refl

member_found :
    (db : AccessDb) (vault_id user_id : ℕ) (m : VaultMember)
    → get_member db vault_id user_id ≡ ok (some m)
    → find_first (λ m. m.vault_id == vault_id && m.user_id == user_id) db.vault_members ≡ some m
unfolding get_member
member_found db vault_id user_id m e = elim (Bool-cases db.members_fail) [
  | inl f ↦ absurd (ground (arith, e, f))
  | inr f ↦ ground (arith, e, f)
]

role_allows-Writes :
    (ext : External) (db : AccessDb) (identity : Identity) (vault_id : ℕ)
    → vault_role_allows ext db identity vault_id write sync ≡ ok true
    → Writes db identity vault_id
unfolding vault_role_allows get_member
role_allows-Writes ext db identity vault_id e = elim (Option-cases identity.service_account_id) [
  | inr (id, k) ↦ elim (Result-cases (get_vault db vault_id)) [
    | inr (x, g) ↦ absurd (ground (arith, e, k, g))
    | inl (none, g) ↦ absurd (ground (arith, e, k, g))
    | inl (some v, g) ↦ absurd (ground (arith, e, k, g, no_account_writes ext db id v))
  ]
  | inl k ↦ elim (Result-cases (get_member db vault_id identity.user_id)) [
    | inr (x, g) ↦ absurd (ground (arith, e, k, g))
    | inl (none, g) ↦ absurd (ground (arith, e, k, g))
    | inl (some m, g) ↦
        let permits : role_permits m.role write sync ≡ true = ground (arith, e, k, g) in
        (k, (m, (member_found db vault_id identity.user_id m g, may_write m.role permits)))
  ]
]

access-write :
    (ext : External) (db : AccessDb) (set : PolicySet) (identity : Identity) (vault_id : ℕ)
    (resource : Text)
    → access ext db set identity vault_id write resource sync ≡ ok true
    → (any (denies ext identity write resource) set.rules ≡ false)
      × (((any (applies ext identity write resource) set.rules || set.default_allow) ≡ true)
          ⊎ Writes db identity vault_id)
unfolding access
access-write ext db set identity vault_id resource e =
    let decided = evaluate-decide ext identity write resource set in
    elim (Bool-cases (any (denies ext identity write resource) set.rules)) [
      | inl d ↦ absurd (ground (arith, e, decided, d))
      | inr d ↦
          elim (Bool-cases
            (any (applies ext identity write resource) set.rules || set.default_allow)) [
              | inl a ↦ (d, inl a)
              | inr a ↦ (
                d,
                inr (
                    role_allows-Writes ext db identity vault_id (ground (arith, e, decided, d, a))),
              )
            ]
    ]

prepared :
    (s : Server) (identity : Identity) (vault_id : ℕ) (action resource : Text) (prep : SyncPrep)
    → prepare_sync s identity vault_id action resource ≡ ok prep
    → (identity.device_id ≡ some prep.device_id)
      × (get_vault s.access_db vault_id ≡ ok (some prep.vault))
      × (access s.ext s.access_db s.policies identity prep.vault.id action resource sync ≡ ok true)
unfolding prepare_sync
prepared s identity vault_id action resource prep h = ground arith

vault_found :
    (db : AccessDb) (id : ℕ) (v : Vault)
    → get_vault db id ≡ ok (some v)
    → find_first (λ v. v.id == id && is_none v.deleted_at) db.vaults ≡ some v
unfolding get_vault
vault_found db id v e = elim (Bool-cases db.vaults_fail) [
  | inl f ↦ absurd (ground (arith, e, f))
  | inr f ↦ ground (arith, e, f)
]

has_none : {n : ℕ} → ◌≡◌ {A = Option ℕ} (some n) none → ⊥
has_none e = cc

-- A push that is answered with a result comes from an identity with a device, to a vault that is not
-- deleted, and no policy denies it. Where no policy and not the default allows it, the identity is a
-- user, never a service account, who is a member of the vault and more than a reader.
pub sync_push-Entitled :
    (s s' : Server) (faults : PushFaults) (identity : Identity) (vault_id now fresh : ℕ)
    (changes : List SyncPushChange) (r : SyncPushResult)
    → sync_push s faults identity vault_id now fresh changes ≡ (ok r, s')
    → Entitled s identity vault_id
unfolding sync_push
sync_push-Entitled s s' faults identity vault_id now fresh changes r e =
    elim (Result-cases (prepare_sync s identity vault_id (codes "write") (codes "sync/push"))) [
      | inr (x, p) ↦ absurd (ground (arith, e, p))
      | inl (prep, p) ↦
          let g = prepared s identity vault_id _ _ prep p in
          let a = access-write s.ext s.access_db s.policies identity prep.vault.id _ g.2 in
          record {
            device = λ q. has_none (sym g.0 ∙ q);
            vault = prep.vault;
            found = vault_found s.access_db vault_id prep.vault g.1;
            undenied = a.0;
            allowed = a.1;
          }
    ]
