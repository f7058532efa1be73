-- ===== src/Vaults/Deletion.antt =====
-- crates/zann-server/src/domains/vaults/service.rs: what a deletion of a vault does to the requests that
-- come after it.
use mathlib.Core.Path.{subst}
use zann.Base.{
  ℕ, ◌≡◌, sym, ◌∙◌, refl, true, false, Bool-cases, inl, inr, List, Text, none, some, Option-cases,
  ok, err, Result-cases, arith,
}
use zann.Errors.{ServiceError}
use zann.Core.Structs.{Identity, User, Vault}
use zann.Access.Vault.{is_none, get_vault}
use zann.Auth.Store.{AuthDb, AuthFaults, user_by_email}
use zann.Auth.Session.{FreshIds, LoginResponse}
use zann.Auth.PersonalVault.{personal_slug}
use zann.Auth.Login.{LoginRequest, login_internal}
use zann.Auth.LockedOut.{slug_in_use, login_internal_locked_out}
use zann.Vaults.Absent.{Distinct}
use zann.Vaults.Service.{VaultSite, VaultFaults, find_vault, get_by_slug}
use zann.Vaults.Existing.{writable, delete_vault, fetch_vault, authorise_vault, update_vault_key}
use zann.Vaults.Absent.{
  has_other_vault, without, owned-after, slug-after, run_update-rows, by_id_after, by_slug_after,
}

module _ (site : VaultSite) (faults : VaultFaults) (now : ℕ) (identity : Identity) (vault_id : Text)
    (db db' : AuthDb) where
  -- What a deletion went through.
  record Deletes : Type 0 where
    vault : Vault
    located : find_vault site faults db vault_id ≡ ok (some vault)
    result : db' ≡ without now identity vault db

  writable_found :
      (v : Vault)
      → writable site faults identity vault_id db ≡ ok v
      → find_vault site faults db vault_id ≡ ok (some v)
  unfolding authorise_vault
  writable_found v l = elim (Bool-cases (is_none identity.service_account_id)) [
    | inr k ↦ absurd (ground (arith, l, k))
    | inl k ↦ elim (Result-cases (find_vault site faults db vault_id)) [
      | inr (x, f) ↦ absurd (ground (arith, l, k, f))
      | inl (none, f) ↦ absurd (ground (arith, l, k, f))
      | inl (some w, f) ↦ ground (arith, l, k, f)
    ]
  ]

  delete_vault-Deletes : delete_vault site faults now identity vault_id db ≡ (ok tt, db') → Deletes
  unfolding delete_vault
  delete_vault-Deletes e = elim (Result-cases (writable site faults identity vault_id db)) [
    | inr (x, l) ↦ absurd (ground (arith, e, l))
    | inl (v, l) ↦ record {
      vault = v;
      located = writable_found v l;
      result = (run_update-rows now identity v faults.vault_update_fails db db' (rw l at e)).1;
    }
  ]

  find_vault_after :
      (faults' : VaultFaults) (other : Text)
      → Distinct db.vaults
      → faults'.vaults_fail ≡ false
      → find_vault site faults db other ≡ find_vault site faults db vault_id
      → delete_vault site faults now identity vault_id db ≡ (ok tt, db')
      → find_vault site faults' db' other ≡ ok none
  unfolding find_vault get_vault get_by_slug
  find_vault_after faults' other distinct readable same e =
      let d = delete_vault-Deletes e in
      let found = same ∙ d.located in
      subst (λ t. find_vault site faults' t other ≡ ok none) (sym d.result)
        (elim (Option-cases (site.parse_uuid other)) [
          | inr (id, p) ↦
              let gone =
                by_id_after faults now identity d.vault db id distinct
                  (rw (p, find_vault) at found) in
              rw (p, find_vault, readable, gone) refl
          | inl p ↦
              let gone =
                by_slug_after faults now identity d.vault db other distinct
                  (rw (p, find_vault) at found) in
              rw (p, find_vault, readable, gone) refl
        ])

-- After a vault is deleted, no reference that led to it before, its id or its slug, leads to a vault: a
-- user's requests to fetch it, to delete it again and to change its key by such a reference answer that
-- there is none, and change nothing. The ids and the slugs of vaults are unique, the vaults can be read,
-- and the later requests are of a user, not of a service account, which may not write at all.
pub delete_vault_hides :
    (site : VaultSite) (faults faults' : VaultFaults) (now now' : ℕ) (identity identity' : Identity)
    (vault_id other : Text) (vault_key_enc : List ℕ) (db db' : AuthDb)
    → Distinct db.vaults
    → faults'.vaults_fail ≡ false
    → identity'.service_account_id ≡ none
    → find_vault site faults db other ≡ find_vault site faults db vault_id
    → delete_vault site faults now identity vault_id db ≡ (ok tt, db')
    → (fetch_vault site faults' identity' other db' ≡ err ServiceError.not_found)
      × (delete_vault site faults' now' identity' other db' ≡ (err ServiceError.not_found, db'))
      × (update_vault_key site faults' identity' other vault_key_enc db'
          ≡ (err ServiceError.not_found, db'))
unfolding delete_vault fetch_vault update_vault_key authorise_vault
delete_vault_hides site faults faults' now now' identity identity' vault_id other vault_key_enc db
      db' distinct readable user same e =
    let gone =
      find_vault_after site faults now identity vault_id db db' faults' other distinct readable same
        e in
    (rw gone refl, rw (user, gone) refl, rw (user, gone) refl)

-- Where personal vaults are enabled, no login succeeds for a user whose only live personal vault was
-- deleted, while the slug of that vault is in use (by the deleted row or another): neither right after
-- the deletion nor in any later state with the same users, vaults and members, whatever sessions and
-- devices failed logins have left.
pub delete_vault_locks_out :
    (site : VaultSite) (faults : VaultFaults) (login_faults : AuthFaults) (now now' : ℕ)
    (identity : Identity) (vault_ref : Text) (v : Vault) (db db' later after : AuthDb) (user : User)
    (ids : FreshIds) (device_id vault_id : ℕ) (payload : LoginRequest) (response : LoginResponse)
    → writable site faults identity vault_ref db ≡ ok v
    → delete_vault site faults now identity vault_ref db ≡ (ok tt, db')
    → (later.users ≡ db'.users)
      × (later.vaults ≡ db'.vaults)
      × (later.vault_members ≡ db'.vault_members)
    → user_by_email db payload.email ≡ some user
    → site.auth.personal_vaults_enabled ≡ true
    → slug_in_use site.auth user.id db ≡ true
    → has_other_vault user.id v db ≡ false
    → ¬ (
        login_internal site.auth login_faults now' ids device_id vault_id payload later
        ≡ (ok response, after))
unfolding delete_vault user_by_email
delete_vault_locks_out site faults login_faults now now' identity vault_ref v db db' later after
      user ids device_id vault_id payload response permitted e same located enabled in_use only
      login =
    let r = run_update-rows now identity v faults.vault_update_fails db db' (rw permitted at e) in
    login_internal_locked_out site.auth login_faults now' ids device_id vault_id payload later
      response after user (rw (same.0, r.1) located) enabled
      (rw (same.1, same.2, r.1)
        (owned-after now identity v user.id db.vault_members db.vaults only))
      (rw (same.1, r.1)
        (slug-after now identity v (personal_slug site.auth user.id) db.vaults in_use))
      login
