-- ===== src/Auth/Authentic.antt =====
-- crates/zann-server/src/domains/auth/core/identity.rs: whom a session token speaks for.
use zann.Base.{
  ℕ, ◌≤◌, ◌≡◌, ◌⊎◌, refl, true, false, Bool-cases, inl, inr, Option, none, some, Option-cases, List,
  [], ◌∷◌, Text, String, find_first, Result, ok, Result-cases, arith, ◌>>=◌, ltb, ◌==◌, ◌&&◌,
}
use zann.Core.Structs.{
  User, Session, ServiceAccount, ServiceAccountSession, Identity, internal, service_account,
}
use zann.Access.Vault.{is_none}
use zann.Auth.Store.{
  AuthDb, AuthSite, AuthFaults, user_by_id, session_by_access, account_session_by_access,
  account_by_id, members_of,
}
use zann.Auth.Identify.{
  Principal, status_allowed, passed_at, identity_from_user, session_principal, account_principal,
  group_slugs, identity_from_session_token,
}

-- A session of the identity's user on the identity's device, not expired.
pub record UserSession (site : AuthSite) (db : AuthDb) (now : ℕ) (token : Text)
    (identity : Identity) : Type 0 where
  pub session : Session
  pub located : session_by_access db (site.hash_token token) ≡ some session
  pub in_time : now ≤ session.access_expires_at
  pub user : identity.user_id ≡ session.user_id
  pub device : identity.device_id ≡ some session.device_id
  pub no_account : identity.service_account_id ≡ none
  pub source : identity.source ≡ internal

-- A session of the identity's service account, of which neither has expired, and which is not
-- revoked; the identity's user is the owner.
pub record AccountSession (site : AuthSite) (db : AuthDb) (now : ℕ) (token : Text)
    (identity : Identity) : Type 0 where
  pub session : ServiceAccountSession
  pub located : account_session_by_access db (site.hash_token token) ≡ some session
  pub no_user_session : session_by_access db (site.hash_token token) ≡ none
  pub in_time : now ≤ session.expires_at
  pub account : ServiceAccount
  pub found : account_by_id db session.service_account_id ≡ some account
  pub not_revoked : account.revoked_at ≡ none
  pub not_expired : passed_at now account.expires_at ≡ false
  pub user : identity.user_id ≡ account.owner_user_id
  pub no_device : identity.device_id ≡ none
  pub acting : identity.service_account_id ≡ some account.id
  pub source : identity.source ≡ service_account

pub record ActiveUser (db : AuthDb) (identity : Identity) : Type 0 where
  pub row : User
  pub found : user_by_id db identity.user_id ≡ some row
  pub email : identity.email ≡ row.email
  pub allowed : status_allowed row.status identity.source ≡ true

find-id :
    (id : ℕ) (us : List User) (u : User)
    → find_first (λ u. u.id == id && is_none u.deleted_at) us ≡ some u
    → u.id ≡ id
find-id id [] u e = cc
find-id id (x ∷ xs) u e = elim (Bool-cases (x.id == id && is_none x.deleted_at)) [
  | inl k ↦ ground (arith, e, k)
  | inr k ↦ find-id id xs u (rw k at e)
]

user_by_id-id : (db : AuthDb) (id : ℕ) (u : User) → user_by_id db id ≡ some u → u.id ≡ id
unfolding user_by_id
user_by_id-id db id u e = find-id id db.users u e

ok-inj : (a b : Identity) → ◌≡◌ {A = Result String Identity} (ok a) (ok b) → a ≡ b
ok-inj a b e = cc

is_none-none : (o : Option ℕ) → is_none o ≡ true → o ≡ none
is_none-none none e = refl
is_none-none (some a) e = cc

module _ (site : AuthSite) (faults : AuthFaults) (db : AuthDb) where
  record FromUser (p : Principal) (identity : Identity) : Type 0 where
    row : User
    found : user_by_id db p.user_id ≡ some row
    email : identity.email ≡ row.email
    user : identity.user_id ≡ p.user_id
    allowed : status_allowed row.status p.source ≡ true
    device : identity.device_id ≡ p.device_id
    account : identity.service_account_id ≡ p.service_account_id
    source : identity.source ≡ p.source

  identity_from_user-FromUser :
      (p : Principal) (identity : Identity)
      → identity_from_user site faults db p ≡ ok identity
      → FromUser p identity
  unfolding identity_from_user
  identity_from_user-FromUser p identity e = elim (Bool-cases faults.users_fail) [
    | inl f ↦ absurd (ground (arith, e, f))
    | inr f ↦ elim (Option-cases (user_by_id db p.user_id)) [
      | inl n ↦ absurd (ground (arith, e, f, n))
      | inr (u, l) ↦ elim (Bool-cases (status_allowed u.status p.source)) [
        | inr a ↦ absurd (ground (arith, e, f, l, a))
        | inl a ↦ elim (Bool-cases faults.members_fail) [
          | inl m ↦ absurd (ground (arith, e, f, l, a, m))
          | inr m ↦ elim (Result-cases (group_slugs db faults.groups_fail (members_of db u.id))) [
            | inr (x, g) ↦ absurd (ground (arith, e, f, l, a, m, g))
            | inl (slugs, g) ↦
                let same = rw (f, l, a, m, g) at e in
                record {
                  row = u;
                  found = l;
                  email = rw (← ok-inj _ identity same) refl;
                  user = rw (← ok-inj _ identity same) (user_by_id-id db p.user_id u l);
                  allowed = a;
                  device = rw (← ok-inj _ identity same) refl;
                  account = rw (← ok-inj _ identity same) refl;
                  source = rw (← ok-inj _ identity same) refl;
                }
          ]
        ]
      ]
    ]
  ]

  module _ (now : ℕ) (token : Text) (identity : Identity) where
    abbrev Known : Type 0
    Known = UserSession site db now token identity ⊎ AccountSession site db now token identity

    by_user :
        (s : Session)
        → session_by_access db (site.hash_token token) ≡ some s
        → (session_principal site faults db now s >>= identity_from_user site faults db)
          ≡ ok identity
        → ActiveUser db identity × Known
    unfolding session_principal
    by_user s located e = elim (Bool-cases (ltb s.access_expires_at now)) [
      | inl x ↦ absurd (ground (arith, e, x))
      | inr x ↦
          let u = identity_from_user-FromUser _ identity (rw x at e) in
          (
            record {
              row = u.row;
              found = rw u.user u.found;
              email = u.email;
              allowed = rw u.source u.allowed;
            },
            inl (record {
              session = s;
              located = located;
              in_time = ground (arith, x);
              user = u.user;
              device = u.device;
              no_account = u.account;
              source = u.source;
            }),
          )
    ]

    by_account :
        (s : ServiceAccountSession)
        → session_by_access db (site.hash_token token) ≡ none
        → account_session_by_access db (site.hash_token token) ≡ some s
        → (account_principal site faults db now s >>= identity_from_user site faults db)
          ≡ ok identity
        → ActiveUser db identity × Known
    unfolding account_principal identity_from_user
    by_account s no_session located e = elim (Bool-cases (ltb s.expires_at now)) [
      | inl x ↦ absurd (ground (arith, e, x))
      | inr x ↦ elim (Bool-cases faults.accounts_fail) [
        | inl f ↦ absurd (ground (arith, e, x, f))
        | inr f ↦ elim (Option-cases (account_by_id db s.service_account_id)) [
          | inl n ↦ absurd (ground (arith, e, x, f, n))
          | inr (a, l) ↦ elim (Bool-cases (is_none a.revoked_at)) [
            | inr r ↦ absurd (ground (arith, e, x, f, l, r))
            | inl r ↦ elim (Bool-cases (passed_at now a.expires_at)) [
              | inl p ↦ absurd (ground (arith, e, x, f, l, r, p))
              | inr p ↦
                  let u = identity_from_user-FromUser _ identity (rw (x, f, l, r, p) at e) in
                  (
                    record {
                      row = u.row;
                      found = rw u.user u.found;
                      email = u.email;
                      allowed = rw u.source u.allowed;
                    },
                    inr (record {
                      session = s;
                      located = located;
                      no_user_session = no_session;
                      in_time = ground (arith, x);
                      account = a;
                      found = l;
                      not_revoked = is_none-none a.revoked_at r;
                      not_expired = p;
                      user = u.user;
                      no_device = u.device;
                      acting = u.account;
                      source = u.source;
                    }),
                  )
            ]
          ]
        ]
      ]
    ]

-- A session token that is accepted speaks for a user that is there and whose status is allowed, by a
-- session of that user that has not expired, or else by a session, not expired, of a service account
-- of that user which is neither revoked nor expired.
pub identity_from_session_token-Known :
    (site : AuthSite) (faults : AuthFaults) (db : AuthDb) (now : ℕ) (token : Text)
    (identity : Identity)
    → identity_from_session_token site faults db now token ≡ ok identity
    → ActiveUser db identity
      × (UserSession site db now token identity ⊎ AccountSession site db now token identity)
unfolding identity_from_session_token account_principal identity_from_user session_principal
identity_from_session_token-Known site faults db now token identity e =
    elim (Bool-cases faults.sessions_fail) [
      | inl f ↦ absurd (ground (arith, e, f))
      | inr f ↦ elim (Option-cases (session_by_access db (site.hash_token token))) [
        | inr (s, l) ↦ by_user site faults db now token identity s l (rw (f, l) at e)
        | inl n ↦ elim (Bool-cases faults.account_sessions_fail) [
          | inl g ↦ absurd (ground (arith, e, f, n, g))
          | inr g ↦ elim (Option-cases (account_session_by_access db (site.hash_token token))) [
            | inl m ↦ absurd (ground (arith, e, f, n, g, m))
            | inr (s, l) ↦ by_account site faults db now token identity s n l (rw (f, n, g, l) at e)
          ]
        ]
      ]
    ]
