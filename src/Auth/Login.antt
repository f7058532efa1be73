-- ===== src/Auth/Login.antt =====
-- crates/zann-server/src/domains/auth/service.rs: `login_internal`.
use zann.Base.{
  ℕ, Bool, true, false, not, Option, none, some, ◌∷◌, Text, codes, unwrap_or, String, Result, ok,
  err, ok_or, ensure, ◌>>=◌, ◌>>◌, if◌then◌else◌,
}
use zann.Errors.{ServiceError}
use zann.Core.Structs.{User, Device, Session}
use zann.Core.Enums.UserStatus.{UserStatus, active}
use zann.Auth.Store.{AuthDb, AuthSite, AuthFaults, unless_fails, user_by_email, update_last_login}
use zann.Auth.Session.{FreshIds, LoginResponse, create_session_for_user, build_login_response}
use zann.Auth.PersonalVault.{ensure_personal_vault}

pub record LoginRequest : Type 0 where
  pub email : Text
  pub password : Text
  pub device_name : Option Text
  pub device_platform : Option Text
  pub device_fingerprint : Option Text
  pub device_os : Option Text
  pub device_os_version : Option Text
  pub device_app_version : Option Text

-- `os.or(platform)`.
abbrev either : Option Text → Option Text → Option Text
either none b = b
either (some a) b = some a

unfoldable pub build_device : ℕ → ℕ → LoginRequest → Text → Text → ℕ → Device
build_device id user_id payload default_name default_os now = record {
  id = id;
  user_id = user_id;
  name = unwrap_or payload.device_name default_name;
  fingerprint = unwrap_or payload.device_fingerprint (codes "unknown");
  os = some (unwrap_or (either payload.device_os payload.device_platform) default_os);
  os_version = payload.device_os_version;
  app_version = payload.device_app_version;
  last_seen_at = none;
  last_ip = none;
  revoked_at = none;
  created_at = now;
}

abbrev pub is_active_user : UserStatus → Bool
is_active_user active = true
is_active_user _ = false

-- `verify_password`: a user without a password has none that fits.
abbrev pub verify_password : AuthSite → User → Text → Option Bool
verify_password site user password = elim user.password_hash [
  | none ↦ some false
  | some stored ↦ site.verify_hash user stored password
]

abbrev pub add_device : Device → AuthDb → AuthDb
add_device d db = record db { devices = d ∷ db.devices }

abbrev pub add_session : Session → AuthDb → AuthDb
add_session s db = record db { sessions = s ∷ db.sessions }

module _ (site : AuthSite) (faults : AuthFaults) (now : ℕ) (ids : FreshIds)
    (device_id vault_id : ℕ) where
  -- The user whose password was given.
  unfoldable pub authenticate : LoginRequest → AuthDb → Result ServiceError User
  unfolding user_by_email
  authenticate payload db = do
    ensure (site.internal_enabled) (ServiceError.forbidden "internal_disabled")
    ensure (not site.mode_is_oidc) (ServiceError.forbidden "internal_disabled")
    row ←
        unless_fails faults.users_fail ServiceError.service_db_error
          (user_by_email db payload.email)
    user ← ok_or row (ServiceError.unauthorized "invalid_credentials")
    ensure (is_active_user user.status) (ServiceError.forbidden "user_disabled")
    ensure (not faults.permit_fails) ServiceError.kdf
    valid ← ok_or (verify_password site user payload.password) ServiceError.kdf
    ensure valid (ServiceError.unauthorized "invalid_credentials")
    ok user

  abbrev note_login : User → AuthDb → AuthDb
  note_login user db =
      if faults.last_login_update_fails
      then db
      else update_last_login user.id user.row_version now db

  -- The end of a login, after the personal vault.
  abbrev pub finish :
      User → Result String (Unit {0}) × AuthDb → Result ServiceError LoginResponse × AuthDb
  finish user (err e, db) = (err (ServiceError.internal "personal_vault_create_failed"), db)
  finish user (ok u, db) = (ok (build_login_response site ids), note_login user db)

  -- The rows that a login makes for the user.
  unfoldable pub open_session :
      User → LoginRequest → AuthDb → Result ServiceError LoginResponse × AuthDb
  unfolding build_device create_session_for_user ensure_personal_vault update_last_login
  open_session user payload db =
      let device = build_device device_id user.id payload (codes "default") (codes "unknown") now in
      let session = create_session_for_user site ids user.id device_id now in
      let with_device = add_device device db in
      if faults.device_insert_fails
      then (err ServiceError.service_db_error, db)
      else if faults.session_insert_fails
      then (err ServiceError.service_db_error, with_device)
      else finish user
          (ensure_personal_vault site faults user.id vault_id now (add_session session with_device))

  abbrev for_user :
      LoginRequest → AuthDb → Result ServiceError User → Result ServiceError LoginResponse × AuthDb
  for_user payload db (err e) = (err e, db)
  for_user payload db (ok user) = open_session user payload db

  unfoldable pub login_internal : LoginRequest → AuthDb → Result ServiceError LoginResponse × AuthDb
  unfolding authenticate open_session
  login_internal payload db = for_user payload db (authenticate payload db)
