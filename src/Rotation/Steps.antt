-- ===== src/Rotation/Steps.antt =====
-- The statements of the rotation handlers as steps, in any order: two requests may interleave between
-- any two of them. crates/zann-server/src/domains/vaults/http/v1/shared/handlers and
-- crates/zann-server/src/infra/history.rs.
use zann.Base.{
  ℕ, ◌≤◌, ◌≡◌, refl, ◌⊎◌, inl, inr, Bool, true, ◌&&◌, Bool-cases, Option, none, some, List, [], ◌∷◌,
  Text, All, map, arith, if◌then◌else◌,
}
use zann.Core.Structs.{Identity}
use zann.Crypto.Blob.{Bytes}
use zann.Sync.Store.{prune_rows}
use zann.Rotation.Types.{RotationRow, rotation_state_rotating, rotation_state_stale}
use zann.Rotation.Store.{
  Site, ItemRow, RotationDb, RotationFaults, is_row, state_is, cleared, passed, started,
  write_start, write_stale, write_abort, prune_rotation_candidates,
}
use zann.Rotation.Commit.{CommitPlan, write_commit}

-- No rotation: nothing of one is left.
pub record IsIdle (r : RotationRow) : Type 0 where
  pub state : r.state ≡ none
  pub candidate_enc : r.candidate_enc ≡ none
  pub expires_at : r.expires_at ≡ none
  pub recover_until : r.recover_until ≡ none

-- A rotation: its candidate is there, and it can be recovered for as long as it runs.
pub record IsActive (r : RotationRow) : Type 0 where
  pub candidate : Bytes
  pub expiry : ℕ
  pub recovery : ℕ
  pub state : (r.state ≡ some rotation_state_rotating) ⊎ (r.state ≡ some rotation_state_stale)
  pub candidate_enc : r.candidate_enc ≡ some candidate
  pub expires_at : r.expires_at ≡ some expiry
  pub recover_until : r.recover_until ≡ some recovery
  pub in_order : expiry ≤ recovery

abbrev pub IsRotation : ItemRow → Type 0
IsRotation row = IsIdle row.rotation ⊎ IsActive row.rotation

abbrev pub AllRotations : RotationDb → Type 0
AllRotations db = All IsRotation db.rows

pub data Step (site : Site) : RotationDb → RotationDb → Type 0 where
  start :
      (identity : Identity) (item_id now : ℕ) (candidate_enc : Bytes) (db : RotationDb)
      → Step site db (write_start site identity item_id now candidate_enc db).1
  stale : (item_id : ℕ) (db : RotationDb) → Step site db (write_stale item_id db)
  abort :
      (item_id : ℕ) (reason : Option Text) (db : RotationDb)
      → Step site db (write_abort item_id reason db)
  clean : (now : ℕ) (db : RotationDb) → Step site db (prune_rotation_candidates now db)
  commit :
      (faults : RotationFaults) (identity : Identity) (history_id now : ℕ) (plan : CommitPlan)
      (db : RotationDb)
      → Step site db (write_commit faults identity history_id now plan db)
  -- The pruning of the history after a commit, outside its transaction.
  forget :
      (item_id limit : ℕ) (db : RotationDb)
      → Step site db (record db { item_history = prune_rows item_id limit db.item_history })

pub data Steps (site : Site) : RotationDb → RotationDb → Type 0 where
  done : (db : RotationDb) → Steps site db db
  step : (db db' db'' : RotationDb) → Step site db db' → Steps site db' db'' → Steps site db db''

cleared-IsRotation : (row : ItemRow) (reason : Option Text) → IsIdle (cleared reason)
cleared-IsRotation row reason = record {
  state = refl;
  candidate_enc = refl;
  expires_at = refl;
  recover_until = refl;
}

update_rows-All :
    (id : ℕ) (test : ItemRow → Bool) (f : ItemRow → ItemRow) (rows : List ItemRow)
    → ((r : ItemRow) → test r ≡ true → IsRotation r → IsRotation (f r))
    → All IsRotation rows
    → All IsRotation (map (λ r. if is_row id r && test r then f r else r) rows)
update_rows-All id test f [] h u = tt
update_rows-All id test f (r ∷ rows) h u = (
  elim (Bool-cases (is_row id r && test r)) [
    | inl b ↦ rw b (h r (ground (arith, b)) u.0)
    | inr b ↦ rw b u.0
  ],
  update_rows-All id test f rows h u.1,
)

prune-All :
    (now : ℕ) (rows : List ItemRow)
    → All IsRotation rows
    → All IsRotation (
        map
          (λ r.
            if passed now r.rotation.recover_until then record r { rotation = cleared none } else r)
          rows)
prune-All now [] u = tt
prune-All now (r ∷ rows) u = (
  elim (Bool-cases (passed now r.rotation.recover_until)) [
    | inl b ↦ rw b (inl (cleared-IsRotation r none))
    | inr b ↦ rw b u.0
  ],
  prune-All now rows u.1,
)

mark_stale :
    (r : RotationRow)
    → state_is rotation_state_rotating r.state ≡ true
    → IsIdle r ⊎ IsActive r
    → IsActive (record r { state = some rotation_state_stale })
mark_stale r b (inl idle) = absurd (ground (arith, b, idle.state))
mark_stale r b (inr active) = record {
  candidate = active.candidate;
  expiry = active.expiry;
  recovery = active.recovery;
  state = inr refl;
  candidate_enc = active.candidate_enc;
  expires_at = active.expires_at;
  recover_until = active.recover_until;
  in_order = active.in_order;
}

started-IsActive :
    (site : Site) (identity : Identity) (now : ℕ) (candidate_enc : Bytes)
    → IsActive (started site identity now candidate_enc)
started-IsActive site identity now candidate_enc = record {
  candidate = candidate_enc;
  expiry = _;
  recovery = _;
  state = inl refl;
  candidate_enc = refl;
  expires_at = refl;
  recover_until = refl;
  in_order = omega arith;
}

pub Step-AllRotations :
    (site : Site) (db db' : RotationDb) → Step site db db' → AllRotations db → AllRotations db'
unfolding write_start write_stale write_abort prune_rotation_candidates write_commit
Step-AllRotations site db _ (start identity id now enc _) u =
    update_rows-All id _ _ db.rows (λ r _ _. inr (started-IsActive site identity now enc)) u
Step-AllRotations site db _ (stale id _) u =
    update_rows-All id _ _ db.rows (λ r b h. inr (mark_stale r.rotation b h)) u
Step-AllRotations site db _ (abort id reason _) u =
    update_rows-All id _ _ db.rows (λ r _ _. inl (cleared-IsRotation r reason)) u
Step-AllRotations site db _ (clean now _) u = prune-All now db.rows u
Step-AllRotations site db _ (commit faults identity history_id now plan _) u =
    update_rows-All plan.previous.id _ _ db.rows (λ r _ _. inl (cleared-IsRotation r none)) u
Step-AllRotations site db _ (forget item_id limit _) u = u

-- However the statements of any number of rotation requests and of the clean-up follow one another,
-- every item has either no rotation, and then no candidate and no deadline, or one that is rotating
-- or stale, with its candidate, an expiry, and a time to recover that does not end before the expiry.
pub Steps-AllRotations :
    (site : Site) (db db' : RotationDb) → Steps site db db' → AllRotations db → AllRotations db'
Steps-AllRotations site db _ (done _) u = u
Steps-AllRotations site db db'' (step _ db' _ s ss) u =
    Steps-AllRotations site db' db'' ss (Step-AllRotations site db db' s u)
