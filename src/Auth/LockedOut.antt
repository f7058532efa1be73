-- ===== src/Auth/LockedOut.antt =====
-- crates/zann-server/src/domains/auth/helpers.rs: a login where the slug of the personal vault is in
-- use by a vault that does not count as one, such as a deleted one.
use mathlib.Core.Path.{subst}
use zann.Base.{
  ap, ℕ, ◌≡◌, sym, ◌∙◌, refl, Bool, true, false, Bool-cases, inl, inr, ◌||◌, List, [], ◌∷◌, text_eq,
  any, some, ok, err, Result-cases, arith, ◌==◌, codes,
}
use zann.Core.Structs.{User, Vault}
use zann.Auth.Store.{AuthDb, AuthSite, AuthFaults, user_by_email}
use zann.Auth.Session.{FreshIds, LoginResponse, create_session_for_user}
use zann.Auth.PersonalVault.{
  personal_vault, personal_slug, has_personal_vault, vault_clashes, ensure_personal_vault,
}
use zann.Auth.Login.{
  LoginRequest, build_device, authenticate, add_device, add_session, finish, open_session,
  login_internal,
}
use zann.Auth.Keyed.{some-inj}
use zann.Auth.LoggedIn.{authenticate_user}

-- A vault, deleted or not, has the slug of the user's personal vault.
abbrev pub slug_in_use : AuthSite → ℕ → AuthDb → Bool
slug_in_use site user_id db = any (λ w. text_eq w.slug (personal_slug site user_id)) db.vaults

any-or :
    (p q : Vault → Bool) (vaults : List Vault)
    → any q vaults ≡ true
    → any (λ w. p w || q w) vaults ≡ true
any-or p q [] h = h
any-or p q (w ∷ ws) h = elim (Bool-cases (q w)) [
  | inl k ↦ elim (Bool-cases (p w)) [ inl l ↦ rw l refl | inr l ↦ rw (l, k) refl ]
  | inr k ↦
      let rest = any-or p q ws (rw k at h) in
      elim (Bool-cases (p w)) [ inl l ↦ rw l refl | inr l ↦ rw (l, k) rest ]
]

ensure_personal_vault_fails :
    (site : AuthSite) (faults : AuthFaults) (user_id vault_id now : ℕ) (db : AuthDb)
    → site.personal_vaults_enabled ≡ true
    → has_personal_vault user_id db ≡ false
    → slug_in_use site user_id db ≡ true
    → ensure_personal_vault site faults user_id vault_id now db ≡ (err "db_error", db)
unfolding ensure_personal_vault
ensure_personal_vault_fails site faults user_id vault_id now db enabled missing in_use =
    let clash : vault_clashes (personal_vault site user_id vault_id now) db.vaults ≡ true =
      any-or (λ w. w.id == vault_id) (λ w. text_eq w.slug (personal_slug site user_id)) db.vaults
        in_use in
    ground (arith, enabled, missing, clash)

module _ (site : AuthSite) (faults : AuthFaults) (now : ℕ) (ids : FreshIds) (device_id vault_id : ℕ)
    (payload : LoginRequest) (db : AuthDb) (response : LoginResponse) (db' : AuthDb) where
  open_session_fails :
      (user : User)
      → site.personal_vaults_enabled ≡ true
      → has_personal_vault user.id db ≡ false
      → slug_in_use site user.id db ≡ true
      → ¬ (open_session site faults now ids device_id vault_id user payload db ≡ (ok response, db'))
  unfolding open_session
  open_session_fails user enabled missing in_use e = elim (Bool-cases faults.device_insert_fails) [
    | inl f ↦ ground (arith, e, f)
    | inr f ↦ elim (Bool-cases faults.session_insert_fails) [
      | inl g ↦ ground (arith, e, f, g)
      | inr g ↦
          let inserted = add_session (create_session_for_user site ids user.id device_id now) (
            add_device
              (build_device device_id user.id payload (codes "default") (codes "unknown") now)
              db) in
          let fails =
            ensure_personal_vault_fails site faults user.id vault_id now inserted enabled missing
              in_use in
          let same : open_session site faults now ids device_id vault_id user payload db
              ≡ finish site faults now ids device_id vault_id user (err "db_error", inserted) =
            rw (f, g) (rw fails refl) in
          let bad = sym same ∙ e in ground (arith, bad)
    ]
  ]

  -- Nobody logs in whose personal vault is gone while its slug is in use.
  pub login_internal_locked_out :
      (user : User)
      → user_by_email db payload.email ≡ some user
      → site.personal_vaults_enabled ≡ true
      → has_personal_vault user.id db ≡ false
      → slug_in_use site user.id db ≡ true
      → ¬ (login_internal site faults now ids device_id vault_id payload db ≡ (ok response, db'))
  unfolding login_internal
  login_internal_locked_out user located enabled missing in_use e =
      elim (Result-cases (authenticate site faults now ids device_id vault_id payload db)) [
        | inr (x, l) ↦ ground (arith, e, l)
        | inl (u, l) ↦
            let a = authenticate_user site faults now ids device_id vault_id payload db u l in
            let same : user ≡ u = some-inj user u (sym located ∙ (a.0.located ∙ ap some a.1)) in
            open_session_fails u enabled
              (subst (λ (x : User). has_personal_vault x.id db ≡ false) same missing)
              (subst (λ (x : User). slug_in_use site x.id db ≡ true) same in_use) (rw l at e)
      ]
