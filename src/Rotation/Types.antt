-- ===== src/Rotation/Types.antt =====
-- crates/zann-server/src/domains/vaults/http/v1/shared/types.rs and helpers.rs: the answers of the
-- rotation handlers and the columns of a rotation.
use zann.Base.{ℕ, String, Text, codes, Option, none, some, Bool}
use zann.Crypto.Blob.{Bytes}

pub data StatusCode : Type 0 where
  bad_request forbidden not_found conflict internal_server_error : StatusCode

-- A status, with the code in the body where there is a body.
pub record HttpError : Type 0 where
  pub status : StatusCode
  pub error : Option String

abbrev pub bare : StatusCode → HttpError
bare s = record { status = s; error = none }

abbrev pub coded : StatusCode → String → HttpError
coded s e = record { status = s; error = some e }

abbrev pub db_error : HttpError
db_error = coded internal_server_error "db_error"

abbrev pub rotation_state_rotating : Text
rotation_state_rotating = codes "rotating"

abbrev pub rotation_state_stale : Text
rotation_state_stale = codes "stale"

-- Times are milliseconds.
pub record RotationRow : Type 0 where
  pub state : Option Text
  pub candidate_enc : Option Bytes
  pub started_at : Option ℕ
  pub started_by : Option ℕ
  pub expires_at : Option ℕ
  pub recover_until : Option ℕ
  pub aborted_reason : Option Text

pub record RotationStatusResponse : Type 0 where
  pub state : Text
  pub started_at : Option Text
  pub started_by : Option Text
  pub expires_at : Option Text
  pub recover_until : Option Text
  pub aborted_reason : Option Text

pub record RotationCandidateResponse : Type 0 where
  pub state : Text
  pub candidate : Text
  pub expires_at : Option Text
  pub recover_until : Option Text

pub record RotationCommitResponse : Type 0 where
  pub status : String
  pub version : ℕ

pub record RotateAbortRequest : Type 0 where
  pub reason : Option Text
  pub force : Bool
