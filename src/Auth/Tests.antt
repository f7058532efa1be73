-- ===== src/Auth/Tests.antt =====
-- The theorems about authentication at the site of the fixtures.
use zann.Base.{ℕ, ◌≡◌, ◌≢◌, ◌⊎◌, refl, none, some, List, [], ◌∷◌, codes, text_eq, ok, arith}
use zann.Core.Structs.{Identity, internal}
use zann.Auth.Store.{AuthDb, session_by_access, session_by_refresh}
use zann.Auth.Session.{LoginResponse, refresh, logout}
use zann.Auth.Identify.{Principal, identity_from_user, identity_from_session_token}
use zann.Auth.Login.{login_internal}
use zann.Auth.Keyed.{Keyed}
use zann.Auth.Renewal.{IsUnused, Renewed, refresh-Renewed, logout_ends_session}
use zann.Auth.Authentic.{ActiveUser, UserSession, AccountSession, identity_from_session_token-Known}
use zann.Auth.LoggedIn.{Authenticated, login_internal_access}
use zann.Auth.Fixtures.{site_one, no_auth_faults, old_session, db_one, fresh_ids, login_one}

one_code : (m n : ℕ) → m ≢ n → ◌≢◌ {A = List ℕ} (m ∷ []) (n ∷ [])
one_code m n h e = h (cc)

sessions-Keyed : Keyed db_one.sessions
sessions-Keyed =
    (((omega arith, one_code 43 41 (omega arith), one_code 44 42 (omega arith)), tt), (tt, tt))

ids-IsUnused : IsUnused site_one fresh_ids db_one.sessions
ids-IsUnused = record {
  access = (one_code 41 51 (omega arith), (one_code 43 51 (omega arith), tt));
  refresh = (one_code 42 52 (omega arith), (one_code 44 52 (omega arith), tt));
}

abbrev answer_one : LoginResponse
answer_one = record { access_token = 51 ∷ []; refresh_token = 52 ∷ []; expires_in = 60 }

abbrev refreshed : AuthDb
refreshed = (refresh site_one no_auth_faults 500 fresh_ids (42 ∷ []) db_one).1

refresh_runs :
    refresh site_one no_auth_faults 500 fresh_ids (42 ∷ []) db_one ≡ (ok answer_one, refreshed)
unfolding refresh text_eq
refresh_runs = refl

refresh-Renewed_example : Renewed site_one 500 fresh_ids (42 ∷ []) answer_one db_one refreshed
refresh-Renewed_example =
    refresh-Renewed site_one no_auth_faults 500 fresh_ids (42 ∷ []) answer_one db_one refreshed
      sessions-Keyed ids-IsUnused refresh_runs

abbrev logged_out : AuthDb
logged_out = (logout site_one no_auth_faults (42 ∷ []) db_one).1

logout_runs : logout site_one no_auth_faults (42 ∷ []) db_one ≡ (ok (some old_session), logged_out)
unfolding logout text_eq
logout_runs = refl

old_session_located : session_by_refresh db_one (42 ∷ []) ≡ some old_session
unfolding session_by_refresh text_eq
old_session_located = refl

logout_ends_session_example :
    (session_by_refresh logged_out (42 ∷ []) ≡ none)
    × (session_by_access logged_out (41 ∷ []) ≡ none)
logout_ends_session_example =
    logout_ends_session site_one no_auth_faults (42 ∷ []) (some old_session) db_one logged_out
      old_session sessions-Keyed old_session_located logout_runs

abbrev alice_identity : Identity
alice_identity = record {
  user_id = 7;
  email = codes "a@x";
  display_name = codes "A";
  avatar_url = none;
  avatar_initials = codes "A";
  groups = [];
  source = internal;
  device_id = some 9;
  service_account_id = none;
}

token_runs :
    identity_from_session_token site_one no_auth_faults db_one 100 (41 ∷ []) ≡ ok alice_identity
unfolding identity_from_session_token text_eq zann.Auth.Identify.session_principal
    identity_from_user
token_runs = refl

identity_from_session_token-Known_example :
    ActiveUser db_one alice_identity
    × (UserSession site_one db_one 100 (41 ∷ []) alice_identity
        ⊎ AccountSession site_one db_one 100 (41 ∷ []) alice_identity)
identity_from_session_token-Known_example =
    identity_from_session_token-Known site_one no_auth_faults db_one 100 (41 ∷ []) alice_identity
      token_runs

abbrev logged_in : AuthDb
logged_in = (login_internal site_one no_auth_faults 500 fresh_ids 90 91 login_one db_one).1

login_runs :
    login_internal site_one no_auth_faults 500 fresh_ids 90 91 login_one db_one
    ≡ (ok answer_one, logged_in)
unfolding login_internal text_eq
login_runs = refl

login_internal_access_example :
    (a : Authenticated site_one login_one db_one) × (identity_from_session_token site_one
        no_auth_faults logged_in 60500
        (51 ∷ [])
      ≡ identity_from_user site_one no_auth_faults logged_in (record {
        user_id = a.user.id;
        device_id = some 90;
        service_account_id = none;
        source = internal;
      }))
login_internal_access_example =
    login_internal_access site_one no_auth_faults no_auth_faults 500 60500 fresh_ids 90 91 login_one
      db_one logged_in answer_one login_runs refl (omega arith)
