-- ===== src/Rotation/Machine.antt =====
-- crates/zann-server/src/domains/vaults/http/v1/shared/handlers: the state machine of a rotation, and
-- the requests that make its moves.
use zann.Base.{ℕ, ◌≡◌, ◌≢◌, ◌⊎◌, refl, true, false, ◌||◌, inl, Option, none, some, Text}
use zann.Core.Structs.{Identity}
use zann.Crypto.Envelope.{Draws}
use zann.Rotation.Types.{
  RotationRow, RotateAbortRequest, rotation_state_rotating, rotation_state_stale,
}
use zann.Rotation.Password.{Choices}
use zann.Rotation.Store.{Site, ItemRow, RotationDb, RotationFaults, find_row, state_is, passed}
use zann.Rotation.Start.{rotate_start}
use zann.Rotation.Read.{rotate_status, rotate_candidate, rotate_recover}
use zann.Rotation.Abort.{rotate_abort}
use zann.Rotation.Commit.{Clock, rotate_commit}

pub data Request : Type 0 where
  start_request : Option Text → Choices → Draws → ℕ → Request
  status_request candidate_request : ℕ → Request
  recover_request : ℕ → ℕ → Request
  abort_request : RotateAbortRequest → Request
  commit_request : Clock → Draws → ℕ → Request

-- What a request does to the database.
abbrev pub perform : Site → RotationFaults → Identity → ℕ → Request → RotationDb → RotationDb
perform site faults identity id (start_request policy choices draws now) db =
    (rotate_start site faults identity id policy choices draws now db).1
perform site faults identity id (status_request now) db =
    (rotate_status site faults identity id now db).1
perform site faults identity id (candidate_request now) db =
    (rotate_candidate site faults identity id now db).1
perform site faults identity id (recover_request now later) db =
    (rotate_recover site faults identity id now later db).1
perform site faults identity id (abort_request payload) db =
    (rotate_abort site faults identity id payload db).1
perform site faults identity id (commit_request clock draws history_id) db =
    (rotate_commit site faults identity id clock draws history_id db).1

-- A reader leaves a rotation stale whose time is over.
abbrev pub Expires : ℕ → RotationRow → RotationRow → Type 0
Expires now r r' =
    (state_is rotation_state_rotating r.state ≡ true)
    × (passed now r.expires_at ≡ true)
    × (r'.state ≡ some rotation_state_stale)
    × (r'.candidate_enc ≡ r.candidate_enc)

-- The moves of the state machine. A rotation starts where there is none; a reader finds that its time is
-- over and leaves it stale; an abort ends one in any state; a commit ends one that rotates or is stale and
-- is in time to be recovered. An ended rotation keeps no candidate.
abbrev pub Moves : Request → RotationRow → RotationRow → Type 0
Moves (start_request policy choices draws now) r r' =
    (r.state ≡ none) × (r'.state ≡ some rotation_state_rotating) × (r'.candidate_enc ≢ none)
Moves (status_request now) r r' = Expires now r r'
Moves (candidate_request now) r r' = Expires now r r'
Moves (recover_request now later) r r' = Expires now r r'
Moves (abort_request payload) r r' =
    (r.state ≢ none) × (r'.state ≡ none) × (r'.candidate_enc ≡ none)
Moves (commit_request clock draws history_id) r r' =
    ((state_is rotation_state_rotating r.state || state_is rotation_state_stale r.state) ≡ true)
    × (passed clock.at_recovery r.recover_until ≡ false)
    × (r.candidate_enc ≢ none)
    × (r'.state ≡ none)
    × (r'.candidate_enc ≡ none)

-- The row of the request's item takes one move at most, and those of all other items stay.
pub record Tracked (id : ℕ) (request : Request) (db db' : RotationDb) : Type 0 where
  pub others : (other : ℕ) → other ≢ id → find_row other db' ≡ find_row other db
  pub missing : find_row id db ≡ none → find_row id db' ≡ none
  pub own :
      (row : ItemRow)
      → find_row id db ≡ some row
      → (row' : ItemRow) × ((find_row id db' ≡ some row')
          × ((row'.rotation ≡ row.rotation) ⊎ Moves request row.rotation row'.rotation))

pub kept-Tracked : (id : ℕ) (request : Request) (db : RotationDb) → Tracked id request db db
kept-Tracked id request db = record {
  others = λ other n. refl;
  missing = λ n. n;
  own = λ row e. (row, (e, inl refl));
}
