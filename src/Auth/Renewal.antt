-- ===== src/Auth/Renewal.antt =====
-- crates/zann-server/src/domains/auth/service.rs: `refresh` and `logout`: what becomes of the tokens of
-- a session.
use mathlib.Core.Path.{subst}
use zann.Base.{
  ℕ, ◌≤◌, ◌≡◌, ◌≢◌, refl, sym, Bool, true, false, Bool-cases, inl, inr, Option, none, some,
  Option-cases, List, [], ◌∷◌, Text, text_eq, text_eq→eq, find_first, keep, All, not, ok, arith,
  ltb,
}
use zann.Core.Structs.{Session}
use zann.Auth.Store.{
  AuthDb, AuthSite, AuthFaults, session_by_access, session_by_refresh, update_refresh_token,
  delete_by_refresh_token_hash,
}
use zann.Auth.Session.{
  FreshIds, LoginResponse, later, build_login_response, renew_session, refresh, logout,
}
use zann.Auth.Keyed.{Differs, Keyed, All-find, All-map, some-inj, text_ne, find-old, find-new}

-- Tokens whose hashes no session has, and that are not each other's.
pub record IsUnused (site : AuthSite) (ids : FreshIds) (sessions : List Session) : Type 0 where
  pub access :
      All
        (λ s. s.access_token_hash ≢ site.hash_token (site.ext.uuid_text ids.access_token))
        sessions
  pub refresh :
      All
        (λ s. s.refresh_token_hash ≢ site.hash_token (site.ext.uuid_text ids.refresh_token))
        sessions

module _ (site : AuthSite) (now : ℕ) (ids : FreshIds) where
  -- The session with its new tokens.
  abbrev pub renewed : Session → Session
  renewed s = record s {
    access_token_hash = site.hash_token (site.ext.uuid_text ids.access_token);
    access_expires_at = later now site.access_token_ttl;
    refresh_token_hash = site.hash_token (site.ext.uuid_text ids.refresh_token);
    expires_at = later now site.refresh_token_ttl;
  }

-- What a renewal did: the session of the token was not expired; it is now found by the new tokens
-- and by neither of the old ones.
pub record Renewed (site : AuthSite) (now : ℕ) (ids : FreshIds) (token : Text)
    (response : LoginResponse) (db db' : AuthDb) : Type 0 where
  pub session : Session
  pub located : session_by_refresh db (site.hash_token token) ≡ some session
  pub in_time : now ≤ session.expires_at
  pub old_refresh : session_by_refresh db' (site.hash_token token) ≡ none
  pub old_access : session_by_access db' session.access_token_hash ≡ none
  pub new_refresh :
      session_by_refresh db' (site.hash_token response.refresh_token)
      ≡ some (renewed site now ids session)
  pub new_access :
      session_by_access db' (site.hash_token response.access_token)
      ≡ some (renewed site now ids session)

refresh_apart : (x y : Session) → Differs x y → y.refresh_token_hash ≢ x.refresh_token_hash
refresh_apart x y h = h.2

access_apart : (x y : Session) → Differs x y → y.access_token_hash ≢ x.access_token_hash
access_apart x y h = h.1

find-refresh_hash :
    (hash : Text) (xs : List Session) (s : Session)
    → find_first (λ y. text_eq y.refresh_token_hash hash) xs ≡ some s
    → text_eq s.refresh_token_hash hash ≡ true
find-refresh_hash hash [] s e = cc
find-refresh_hash hash (x ∷ xs) s e = elim (Bool-cases (text_eq x.refresh_token_hash hash)) [
  | inl k ↦ ground (arith, e, k)
  | inr k ↦ find-refresh_hash hash xs s (rw k at e)
]

module _ (site : AuthSite) (faults : AuthFaults) (now : ℕ) (ids : FreshIds) (token : Text)
    (db : AuthDb) where
  -- What a successful renewal went through.
  record Grounds (response : LoginResponse) (db' : AuthDb) : Type 0 where
    session : Session
    located : session_by_refresh db (site.hash_token token) ≡ some session
    in_time : ltb session.expires_at now ≡ false
    answer : response ≡ build_login_response site ids
    result :
        db'
        ≡ update_refresh_token session.id
            (site.hash_token (site.ext.uuid_text ids.access_token))
            (later now site.access_token_ttl)
            (site.hash_token (site.ext.uuid_text ids.refresh_token))
            (later now site.refresh_token_ttl)
            db

  refresh-Grounds :
      (response : LoginResponse) (db' : AuthDb)
      → refresh site faults now ids token db ≡ (ok response, db')
      → Grounds response db'
  unfolding refresh renew_session
  refresh-Grounds response db' e = elim (Bool-cases faults.sessions_fail) [
    | inl f ↦ absurd (ground (arith, e, f))
    | inr f ↦ elim (Option-cases (session_by_refresh db (site.hash_token token))) [
      | inl n ↦ absurd (ground (arith, e, f, n))
      | inr (s, l) ↦ elim (Bool-cases (ltb s.expires_at now)) [
        | inl x ↦ absurd (ground (arith, e, f, l, x))
        | inr x ↦ elim (Bool-cases faults.session_update_fails) [
          | inl u ↦ absurd (ground (arith, e, f, l, x, u))
          | inr u ↦ record {
            session = s;
            located = l;
            in_time = x;
            answer = ground (arith, e, f, l, x, u);
            result = ground (arith, e, f, l, x, u);
          }
        ]
      ]
    ]
  ]

-- A refresh token is used once: after a successful renewal neither it nor the access token of its
-- session is known, and the two new tokens find that session with its new times to live. Sessions
-- are told apart by ids and tokens, and the new tokens are not in use.
pub refresh-Renewed :
    (site : AuthSite) (faults : AuthFaults) (now : ℕ) (ids : FreshIds) (token : Text)
    (response : LoginResponse) (db db' : AuthDb)
    → Keyed db.sessions
    → IsUnused site ids db.sessions
    → refresh site faults now ids token db ≡ (ok response, db')
    → Renewed site now ids token response db db'
unfolding session_by_refresh session_by_access update_refresh_token
refresh-Renewed site faults now ids token response db db' keyed unused e =
    let g = refresh-Grounds site faults now ids token db response db' e in
    let s = g.session in
    let change = renewed site now ids in
    let hash = site.hash_token token in
    let p = λ (y : Session). text_eq y.refresh_token_hash hash in
    let named : s.refresh_token_hash ≡ hash =
      text_eq→eq s.refresh_token_hash hash (find-refresh_hash hash db.sessions s g.located) in
    let new_refresh_ne =
      All-find (λ y. y.refresh_token_hash ≢ site.hash_token (site.ext.uuid_text ids.refresh_token))
        p db.sessions s unused.refresh g.located in
    let new_access_ne =
      All-find (λ y. y.access_token_hash ≢ site.hash_token (site.ext.uuid_text ids.access_token)) p
        db.sessions s unused.access g.located in
    record {
      session = s;
      located = g.located;
      in_time = ground (arith, g.in_time);
      old_refresh =
          rw (g.result, ← named)
            (find-old (λ y. y.refresh_token_hash) refresh_apart s.id change p db.sessions s keyed
              g.located refl (λ q. new_refresh_ne (sym q)));
      old_access = rw g.result (
          find-old (λ y. y.access_token_hash) access_apart s.id change p db.sessions s keyed
            g.located refl (λ q. new_access_ne (sym q)));
      new_refresh =
          rw (g.result, g.answer)
            (find-new (λ y. y.refresh_token_hash) refresh_apart s.id change p db.sessions s keyed
              g.located refl unused.refresh);
      new_access =
          rw (g.result, g.answer)
            (find-new (λ y. y.access_token_hash) access_apart s.id change p db.sessions s keyed
              g.located refl unused.access);
    }

find-keep :
    (hash : Text) (xs : List Session)
    → find_first
        (λ y. text_eq y.refresh_token_hash hash)
        (keep (λ s. not (text_eq s.refresh_token_hash hash)) xs)
      ≡ none
find-keep hash [] = refl
find-keep hash (x ∷ xs) = elim (Bool-cases (text_eq x.refresh_token_hash hash)) [
  | inl k ↦ rw k (find-keep hash xs)
  | inr k ↦ rw (k, k) (find-keep hash xs)
]

find-keep_none :
    (p : Session → Bool) (hash : Text) (xs : List Session)
    → All (λ y. y.access_token_hash ≢ hash) xs
    → find_first (λ y. text_eq y.access_token_hash hash) (keep p xs) ≡ none
find-keep_none p hash [] h = refl
find-keep_none p hash (x ∷ xs) h = elim (Bool-cases (p x)) [
  | inl k ↦ rw (k, text_ne x.access_token_hash hash h.0) (find-keep_none p hash xs h.1)
  | inr k ↦ rw k (find-keep_none p hash xs h.1)
]

find_access-keep :
    (hash : Text) (xs : List Session) (s : Session)
    → Keyed xs
    → find_first (λ y. text_eq y.refresh_token_hash hash) xs ≡ some s
    → find_first
        (λ y. text_eq y.access_token_hash s.access_token_hash)
        (keep (λ s. not (text_eq s.refresh_token_hash hash)) xs)
      ≡ none
find_access-keep hash [] s keyed e = refl
find_access-keep hash (x ∷ xs) s keyed e =
    let p = λ (y : Session). text_eq y.refresh_token_hash hash in
    let q = λ (y : Session). not (text_eq y.refresh_token_hash hash) in
    elim (Bool-cases (p x)) [
      | inl k ↦
          let at_head : x ≡ s = some-inj x s (rw k at e) in
          let apart =
            All-map (Differs x) (λ y. y.access_token_hash ≢ x.access_token_hash) xs (λ y d. d.1)
              keyed.0 in
          rw k (
            subst
              (λ y.
                find_first (λ z. text_eq z.access_token_hash y.access_token_hash) (keep q xs)
                ≡ none)
              at_head (find-keep_none q x.access_token_hash xs apart))
      | inr k ↦
          let later : find_first p xs ≡ some s = rw k at e in
          let apart = All-find (Differs x) p xs s keyed.0 later in
          rw (k, text_ne x.access_token_hash s.access_token_hash (λ eq. apart.1 (sym eq)))
            (find_access-keep hash xs s keyed.1 later)
    ]

-- After a logout that succeeds neither token of the session is known. Sessions are told apart by
-- their ids and tokens.
pub logout_ends_session :
    (site : AuthSite) (faults : AuthFaults) (token : Text) (answer : Option Session)
    (db db' : AuthDb) (s : Session)
    → Keyed db.sessions
    → session_by_refresh db (site.hash_token token) ≡ some s
    → logout site faults token db ≡ (ok answer, db')
    → (session_by_refresh db' (site.hash_token token) ≡ none)
      × (session_by_access db' s.access_token_hash ≡ none)
unfolding logout session_by_refresh session_by_access delete_by_refresh_token_hash
logout_ends_session site faults token answer db db' s keyed located e =
    elim (Bool-cases faults.session_delete_fails) [
      | inl f ↦ absurd (ground (arith, e, f))
      | inr f ↦
          let hash = site.hash_token token in
          let result : delete_by_refresh_token_hash hash db ≡ db' = ground (arith, e, f) in
          (
            rw (← result) (find-keep hash db.sessions),
            rw (← result) (find_access-keep hash db.sessions s keyed located),
          )
    ]
