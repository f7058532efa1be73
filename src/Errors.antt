-- ===== src/Errors.antt =====
-- crates/zann-server/src/domains/errors.rs: the errors of the services.
use zann.Base.{String, Text}

pub data ServiceError : Type 0 where
  forbidden_no_body not_found service_db_error no_changes invalid_password : ServiceError
  invalid_credentials kdf device_required : ServiceError
  forbidden unauthorized bad_request conflict payload_too_large internal : String → ServiceError
  policy_mismatch : Text → Text → ServiceError
