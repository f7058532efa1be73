-- ===== src/External.antt =====
-- What the program takes from libraries whose code is not in the repository: the texts of UUIDs and
-- of times (crates uuid, chrono), glob patterns (crate glob), JSON and base64 (crates serde_json,
-- base64).
use zann.Base.{ℕ, ℤ, List, Text, Option, Bool}

pub record External : Type 0 where
  -- `Uuid::to_string`; a UUID is its 128-bit number.
  pub uuid_text : ℕ → Text
  -- `DateTime::to_rfc3339`; a time is its number of milliseconds.
  pub rfc3339 : ℕ → Text
  -- `Pattern::new(pattern)`, then `matches` of the compiled pattern; `none` is a pattern error.
  pub glob : Text → Option (Text → Bool)
  -- `STANDARD.encode` and `STANDARD.decode`.
  pub base64_encode : List ℕ → Text
  pub base64_decode : Text → Option (List ℕ)
  -- `to_vec(&SyncCursor { seq })` and `from_slice::<SyncCursor>`; a cursor is its number.
  pub cursor_to_vec : ℤ → List ℕ
  pub cursor_from_slice : List ℕ → Option ℤ
