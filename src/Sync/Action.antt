-- ===== src/Sync/Action.antt =====
-- crates/zann-server/src/domains/sync/http/v1/handlers/push_apply.rs and types.rs: the requests and answers of a push, and the
-- bodies of the functions that hold its connection.
use zann.Base.{ℕ, ℤ, String, Option, none, some, List, Text, Result, ok, err}
use zann.Core.Enums.ChangeType.{ChangeType}
use zann.Sync.Store.{Conn, Statement}

pub record SyncPushChange : Type 0 where
  pub item_id : ℕ
  pub operation : ChangeType
  pub payload_enc : Option (List ℕ)
  pub checksum : Option Text
  pub path : Option Text
  pub name : Option Text
  pub type_id : Option Text
  pub base_seq : Option ℤ

pub record SyncAppliedChange : Type 0 where
  pub item_id : Text
  pub seq : ℕ
  pub updated_at : Text
  pub deleted_at : Option Text

pub record SyncPushConflict : Type 0 where
  pub item_id : Text
  pub reason : String
  pub server_seq : ℕ
  pub server_updated_at : Text

pub data StatusCode : Type 0 where
  bad_request internal_server_error : StatusCode

pub record ApplyChangeError : Type 0 where
  pub status : StatusCode
  pub error : String

pub data ApplyChangeResult : Type 0 where
  applied : ℕ → SyncAppliedChange → ApplyChangeResult
  conflict : SyncPushConflict → ApplyChangeResult

abbrev pub item_history_limit : ℕ
item_history_limit = 5

unfoldable pub db_error : ApplyChangeError
db_error = record { status = internal_server_error; error = "db_error" }

abbrev bad : String → ApplyChangeError
bad e = record { status = bad_request; error = e }

-- The body of an `async fn` that holds the connection: a result, and the connection after it.
abbrev pub Action : Type 0 → Type 0
Action A = Conn → Result ApplyChangeError A × Conn

abbrev pub continue_with :
    {A B : Type 0}
    → (A → Action B)
    → Result ApplyChangeError A × Conn
    → Result ApplyChangeError B × Conn
continue_with f (ok a, c) = f a c
continue_with f (err e, c) = (err e, c)

infixl 5 ◌>>=◌ ◌>>◌
unfoldable pub ◌>>=◌ : {A B : Type 0} → Action A → (A → Action B) → Action B
◌>>=◌ m f c = continue_with f (m c)

abbrev pub ◌>>◌ : {B : Type 0} → Action (Unit {0}) → Action B → Action B
m >> k = m >>= λ _. k

unfoldable pub give : {A : Type 0} → A → Action A
give a c = (ok a, c)

unfoldable pub fail : {A : Type 0} → ApplyChangeError → Action A
fail e c = (err e, c)

abbrev pub or_db_error : {A : Type 0} → Option A × Conn → Result ApplyChangeError A × Conn
or_db_error (none, c) = (err db_error, c)
or_db_error (some a, c) = (ok a, c)

-- `.await.map_err(|_| db_error())?`, and a statement whose failure is only logged.
unfoldable pub must : {A : Type 0} → Statement A → Action A
must s c = or_db_error (s c)

unfoldable pub attempt : {A : Type 0} → Statement A → Action (Option A)
attempt s c = let (r, c') = s c in (ok r, c')

-- `ok_or`, for a part of the request that has to be there.
unfoldable pub require : {A : Type 0} → Option A → String → Action A
unfolding fail give
require none e = fail (bad e)
require (some a) e = give a
