-- ===== src/Auth/Session.antt =====
-- crates/zann-server/src/domains/auth/service.rs and helpers.rs: sessions of users, their renewal and
-- their end. A time is a number of milliseconds; fresh UUIDs are arguments.
use zann.Base.{ℕ, ◌+◌, ◌*◌, Option, none, some, Text, ltb, Result, ok, err, if◌then◌else◌}
use zann.Errors.{ServiceError}
use zann.Core.Structs.{Session}
use zann.Auth.Store.{
  AuthDb, AuthSite, AuthFaults, session_by_refresh, update_refresh_token,
  delete_by_refresh_token_hash,
}

-- What `Uuid::now_v7()` gives for the tokens and the row of a session.
pub record FreshIds : Type 0 where
  pub session_id : ℕ
  pub access_token : ℕ
  pub refresh_token : ℕ

pub record LoginResponse : Type 0 where
  pub access_token : Text
  pub refresh_token : Text
  pub expires_in : ℕ

-- `Duration::seconds`.
abbrev pub later : ℕ → ℕ → ℕ
later now seconds = now + seconds * 1000

module _ (site : AuthSite) where
  unfoldable pub create_session_for_user : FreshIds → ℕ → ℕ → ℕ → Session
  create_session_for_user ids user_id device_id now = record {
    id = ids.session_id;
    user_id = user_id;
    device_id = device_id;
    access_token_hash = site.hash_token (site.ext.uuid_text ids.access_token);
    access_expires_at = later now site.access_token_ttl;
    refresh_token_hash = site.hash_token (site.ext.uuid_text ids.refresh_token);
    expires_at = later now site.refresh_token_ttl;
    created_at = now;
  }

  abbrev pub build_login_response : FreshIds → LoginResponse
  build_login_response ids = record {
    access_token = site.ext.uuid_text ids.access_token;
    refresh_token = site.ext.uuid_text ids.refresh_token;
    expires_in = site.access_token_ttl;
  }

  -- The renewal of a session that was found.
  unfoldable pub renew_session :
      AuthFaults → ℕ → FreshIds → Session → AuthDb → Result ServiceError LoginResponse × AuthDb
  unfolding update_refresh_token
  renew_session faults now ids session db =
      if ltb session.expires_at now
      then (err (ServiceError.unauthorized "token_expired"), db)
      else if faults.session_update_fails
      then (err ServiceError.service_db_error, db)
      else (
        ok (build_login_response ids),
        update_refresh_token session.id (site.hash_token (site.ext.uuid_text ids.access_token))
            (later now site.access_token_ttl)
            (site.hash_token (site.ext.uuid_text ids.refresh_token))
            (later now site.refresh_token_ttl) db,
      )

  abbrev renew_found :
      AuthFaults
      → ℕ
      → FreshIds
      → Option Session
      → AuthDb
      → Result ServiceError LoginResponse × AuthDb
  renew_found faults now ids none db = (err (ServiceError.unauthorized "invalid_token"), db)
  renew_found faults now ids (some session) db = renew_session faults now ids session db

  unfoldable pub refresh :
      AuthFaults → ℕ → FreshIds → Text → AuthDb → Result ServiceError LoginResponse × AuthDb
  unfolding renew_session session_by_refresh
  refresh faults now ids refresh_token db =
      if faults.sessions_fail
      then (err ServiceError.service_db_error, db)
      else renew_found faults now ids (session_by_refresh db (site.hash_token refresh_token)) db

  -- A failure to load the session is ignored.
  unfoldable pub logout : AuthFaults → Text → AuthDb → Result ServiceError (Option Session) × AuthDb
  unfolding session_by_refresh delete_by_refresh_token_hash
  logout faults refresh_token db =
      let hash = site.hash_token refresh_token in
      let session = if faults.sessions_fail then none else session_by_refresh db hash in
      if faults.session_delete_fails
      then (err ServiceError.service_db_error, db)
      else (ok session, delete_by_refresh_token_hash hash db)
