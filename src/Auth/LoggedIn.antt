-- ===== src/Auth/LoggedIn.antt =====
-- crates/zann-server/src/domains/auth/service.rs: what a login with a password gives.
use zann.Base.{
  ℕ, ◌≤◌, ◌≡◌, refl, sym, ◌∙◌, true, false, Bool-cases, inl, inr, none, some, Option-cases, ◌∷◌,
  codes, text_eq_refl, String, Result, ok, err, Result-cases, arith, ltb,
}
use zann.Core.Structs.{User, Session, internal}
use zann.Auth.Store.{
  AuthDb, AuthSite, AuthFaults, user_by_email, session_by_access, update_last_login, unless_fails,
}
use zann.Auth.Session.{
  FreshIds, LoginResponse, later, create_session_for_user, build_login_response,
}
use zann.Auth.PersonalVault.{ensure_personal_vault}
use zann.Auth.Login.{
  build_device, LoginRequest, is_active_user, verify_password, authenticate, open_session,
  login_internal, add_session, finish, add_device,
}
use zann.Auth.Identify.{session_principal, identity_from_user, identity_from_session_token}

-- The vault leaves the sessions alone.
ensure_personal_vault-sessions :
    (site : AuthSite) (faults : AuthFaults) (user_id vault_id now : ℕ) (db : AuthDb)
    → (ensure_personal_vault site faults user_id vault_id now db).1.sessions ≡ db.sessions
unfolding ensure_personal_vault
ensure_personal_vault-sessions site faults user_id vault_id now db = ground arith

-- The user that logged in: the address is the user's, who is active and gave the right password.
pub record Authenticated (site : AuthSite) (payload : LoginRequest) (db : AuthDb) : Type 0 where
  pub user : User
  pub located : user_by_email db payload.email ≡ some user
  pub active : is_active_user user.status ≡ true
  pub password : verify_password site user payload.password ≡ some true
  pub enabled : (site.internal_enabled ≡ true) × (site.mode_is_oidc ≡ false)

module _ (site : AuthSite) (faults : AuthFaults) (now : ℕ) (ids : FreshIds) (device_id vault_id : ℕ)
    (payload : LoginRequest) (db : AuthDb) where
  pub authenticate_user :
      (user : User)
      → authenticate site faults now ids device_id vault_id payload db ≡ ok user
      → (a : Authenticated site payload db) × (a.user ≡ user)
  unfolding authenticate
  authenticate_user user e = elim (Bool-cases site.internal_enabled) [
    | inr x ↦ absurd (ground (arith, e, x))
    | inl i ↦ elim (Bool-cases site.mode_is_oidc) [
      | inl x ↦ absurd (ground (arith, e, i, x))
      | inr o ↦ elim (Bool-cases faults.users_fail) [
        | inl x ↦ absurd (ground (arith, e, i, o, x))
        | inr f ↦ elim (Option-cases (user_by_email db payload.email)) [
          | inl x ↦ absurd (ground (arith, e, i, o, f, x))
          | inr (u, l) ↦ elim (Bool-cases (is_active_user u.status)) [
            | inr x ↦ absurd (ground (arith, e, i, o, f, l, x))
            | inl a ↦ elim (Bool-cases faults.permit_fails) [
              | inl x ↦ absurd (ground (arith, e, i, o, f, l, a, x))
              | inr p ↦ elim (Option-cases (verify_password site u payload.password)) [
                | inl x ↦ absurd (ground (arith, e, i, o, f, l, a, p, x))
                | inr (false, v) ↦ absurd (ground (arith, e, i, o, f, l, a, p, v))
                | inr (true, v) ↦ (
                  record { user = u; located = l; active = a; password = v; enabled = (i, o) },
                  ground (arith, e, i, o, f, l, a, p, v),
                )
              ]
            ]
          ]
        ]
      ]
    ]
  ]

  abbrev opened : User → Session
  opened user = create_session_for_user site ids user.id device_id now

  finish-sessions :
      (user : User) (r : Result String (Unit {0}) × AuthDb) (response : LoginResponse)
      (db' : AuthDb)
      → finish site faults now ids device_id vault_id user r ≡ (ok response, db')
      → (response ≡ build_login_response site ids) × (db'.sessions ≡ r.1.sessions)
  unfolding update_last_login
  finish-sessions user (err x, c) response db' e = absurd (ground (arith, e))
  finish-sessions user (ok u, c) response db' e = elim (Bool-cases faults.last_login_update_fails) [
    | inl f ↦ (ground (arith, e, f), ground (arith, e, f))
    | inr f ↦ (ground (arith, e, f), ground (arith, e, f))
  ]

  open_session-sessions :
      (user : User) (response : LoginResponse) (db' : AuthDb)
      → open_session site faults now ids device_id vault_id user payload db ≡ (ok response, db')
      → (response ≡ build_login_response site ids) × (db'.sessions ≡ opened user ∷ db.sessions)
  unfolding open_session
  open_session-sessions user response db' e = elim (Bool-cases faults.device_insert_fails) [
    | inl f ↦ absurd (ground (arith, e, f))
    | inr f ↦ elim (Bool-cases faults.session_insert_fails) [
      | inl g ↦ absurd (ground (arith, e, f, g))
      | inr g ↦
          let inserted = add_session (opened user) (
            add_device
              (build_device device_id user.id payload (codes "default") (codes "unknown") now)
              db) in
          let r = ensure_personal_vault site faults user.id vault_id now inserted in
          let same : open_session site faults now ids device_id vault_id user payload db
              ≡ finish site faults now ids device_id vault_id user r =
            rw (f, g) refl in
          let done = finish-sessions user r response db' (sym same ∙ e) in
          (
            done.0,
            done.1 ∙ ensure_personal_vault-sessions site faults user.id vault_id now inserted,
          )
    ]
  ]

  login_internal-sessions :
      (response : LoginResponse) (db' : AuthDb)
      → login_internal site faults now ids device_id vault_id payload db ≡ (ok response, db')
      → (a : Authenticated site payload db) × (response ≡ build_login_response site ids)
        × (db'.sessions ≡ opened a.user ∷ db.sessions)
  unfolding login_internal
  login_internal-sessions response db' e =
      elim (Result-cases (authenticate site faults now ids device_id vault_id payload db)) [
        | inr (x, l) ↦ absurd (ground (arith, e, l))
        | inl (user, l) ↦
            let a = authenticate_user user l in
            let done = open_session-sessions user response db' (rw l at e) in
            (a.0, done.0, rw a.1 done.1)
      ]

-- After a login with the password of an active user the access token that was given is that user's
-- on the new device, until its time to live has passed.
pub login_internal_access :
    (site : AuthSite) (faults faults' : AuthFaults) (now now' : ℕ) (ids : FreshIds)
    (device_id vault_id : ℕ) (payload : LoginRequest) (db db' : AuthDb) (response : LoginResponse)
    → login_internal site faults now ids device_id vault_id payload db ≡ (ok response, db')
    → faults'.sessions_fail ≡ false
    → now' ≤ later now site.access_token_ttl
    → (a : Authenticated site payload db) × (identity_from_session_token site faults' db' now'
          response.access_token
        ≡ identity_from_user site faults' db' (record {
          user_id = a.user.id;
          device_id = some device_id;
          service_account_id = none;
          source = internal;
        }))
unfolding identity_from_session_token session_by_access session_principal create_session_for_user
login_internal_access site faults faults' now now' ids device_id vault_id payload db db' response e
      works in_time =
    let s =
      login_internal-sessions site faults now ids device_id vault_id payload db response db' e in
    let early : ltb (later now site.access_token_ttl) now' ≡ false = ground (arith, in_time) in
    let reads : unless_fails {E = String} faults'.sessions_fail "db_error"
          (session_by_access db' (site.hash_token response.access_token))
        ≡ ok (some (opened site faults now ids device_id vault_id payload db s.0.user)) =
      rw (works, s.2, s.1, text_eq_refl (site.hash_token (site.ext.uuid_text ids.access_token)))
        refl in
    (s.0, rw (reads, early) refl)
