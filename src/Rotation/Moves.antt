-- ===== src/Rotation/Moves.antt =====
-- crates/zann-server/src/domains/vaults/http/v1/shared/handlers: every request makes at most the move of
-- the state machine that is meant for it.
use mathlib.Core.Path.{subst}
use zann.Base.{
  ℕ, ◌≡◌, refl, sym, ◌∙◌, ap, Bool, true, false, ◌||◌, Result-cases, inl, inr, none, some, List, ok,
  arith, ◌==◌, if◌then◌else◌,
}
use zann.Core.Structs.{Identity, Item, ItemHistory}
use zann.Crypto.Envelope.{Draws}
use zann.Rotation.Store.{Site, ItemRow, RotationDb, RotationFaults, find_row, update_rows}
use zann.Rotation.Read.{rotate_status, rotate_candidate, rotate_recover}
use zann.Rotation.Commit.{
  CommitPlan, conclude_commit, Clock, plan_commit, rotate_commit, write_commit,
}
use zann.Rotation.Inversion.{find_row-id}
use zann.Rotation.Store.{cleared}
use zann.Rotation.Outcome.{plan_commit-Grounds, renew_payload-Renewed}
use zann.Rotation.Written.{check_state-in_time, check_state-held, renewed_row}
use zann.Rotation.Machine.{
  Request, start_request, status_request, candidate_request, recover_request, abort_request,
  commit_request, perform, Moves, Tracked, kept-Tracked,
}
use zann.Rotation.Readers.{update-Tracked, authorised-id, with_rotation-Tracked}
use zann.Rotation.Writers.{check_state-open, some_none, start-Tracked, abort-Tracked}

module _ (site : Site) (faults : RotationFaults) (identity : Identity) (id : ℕ)
    (db : RotationDb) where
  if_Tracked :
      (request : Request) (b : Bool) {x y : RotationDb}
      → Tracked id request db x
      → Tracked id request db y
      → Tracked id request db (if b then x else y)
  if_Tracked request true s t = s
  if_Tracked request false s t = t

  if_after :
      {request : Request} {A : Type 0} (b : Bool) (p q : A × RotationDb)
      → Tracked id request db p.1
      → Tracked id request db q.1
      → Tracked id request db (if b then p else q).1
  if_after true p q s t = s
  if_after false p q s t = t

  same_rows :
      (request : Request) (db₁ : RotationDb) (history : List ItemHistory)
      → Tracked id request db db₁
      → Tracked id request db (record db₁ { item_history = history })
  same_rows request db₁ history m = record { others = m.others; missing = m.missing; own = m.own }

  written :
      (clock : Clock) (draws : Draws) (history_id : ℕ) (plan : CommitPlan)
      → plan_commit site faults identity id clock draws db ≡ ok plan
      → Tracked id
          (commit_request clock draws history_id)
          db
          (write_commit faults identity history_id clock.at_write plan db)
  unfolding write_commit
  written clock draws history_id plan e =
      let g = plan_commit-Grounds site faults identity id clock draws db plan e in
      let own = authorised-id site faults identity id db _ _ g.item g.vault g.authorised in
      let w =
        renew_payload-Renewed site draws g.smk g.vault g.row.item g.candidate plan g.renewed in
      let here = subst (λ i. find_row i db ≡ some g.row) own g.located in
      let old : plan.previous.id ≡ id =
        ap (λ (o : Item). o.id) w.previous ∙ find_row-id id db.rows g.row here in
      let moved =
        update-Tracked id (λ r. r.item.row_version == plan.previous.row_version)
          (renewed_row identity clock.at_write plan) (λ r. refl)
          (commit_request clock draws history_id) db
          (λ row found t.
            let same : g.row ≡ row = ground (arith, here, found) in
            subst
              (λ (x : ItemRow).
                Moves (commit_request clock draws history_id) x.rotation (cleared none))
              same
              (
                check_state-open clock g.row.rotation g.candidate_enc g.checked,
                check_state-in_time clock g.row.rotation g.candidate_enc g.checked,
                some_none _ _ (check_state-held clock g.row.rotation g.candidate_enc g.checked),
                refl,
                refl,
              )) in
      same_rows _ (update_rows plan.previous.id _ (renewed_row identity clock.at_write plan) db) _ (
        subst
          (λ i. Tracked id (commit_request clock draws history_id) db (
            update_rows i (λ r. r.item.row_version == plan.previous.row_version)
              (renewed_row identity clock.at_write plan) db))
          (sym old) moved)

  commit-Tracked :
      (clock : Clock) (draws : Draws) (history_id : ℕ)
      → Tracked id
          (commit_request clock draws history_id)
          db
          (rotate_commit site faults identity id clock draws history_id db).1
  unfolding rotate_commit conclude_commit
  commit-Tracked clock draws history_id =
      let request = commit_request clock draws history_id in
      elim (Result-cases (plan_commit site faults identity id clock draws db)) [
        | inr (x, e) ↦ rw (e, rotate_commit) (kept-Tracked id request db)
        | inl (plan, e) ↦
            let moved = written clock draws history_id plan e in
            rw (e, rotate_commit)
              (if_after (faults.history_fails || (faults.write_fails || faults.commit_fails)) _ _
                (kept-Tracked id request db)
                (if_Tracked request faults.prune_fails moved (same_rows request _ _ moved)))
      ]

  -- Whatever a request does, on every path through it, it changes no other item, and the rotation of its
  -- own item either stays or takes the one move that the state machine has for this kind of request: a
  -- start from no rotation; a reader's from one whose time is over to a stale one with the same candidate;
  -- an abort's from a rotation to none; a commit's from a rotation that is in time to be recovered to none.
  pub perform-Tracked :
      (request : Request) → Tracked id request db (perform site faults identity id request db)
  unfolding rotate_status rotate_candidate rotate_recover
  perform-Tracked (start_request policy choices draws now) =
      start-Tracked site faults identity id db policy choices draws now
  perform-Tracked (status_request now) =
      with_rotation-Tracked site faults identity id db _ _ _ now _ (λ r r' m. m)
  perform-Tracked (candidate_request now) =
      with_rotation-Tracked site faults identity id db _ _ _ now _ (λ r r' m. m)
  perform-Tracked (recover_request now later) =
      with_rotation-Tracked site faults identity id db _ _ _ now _ (λ r r' m. m)
  perform-Tracked (abort_request payload) = abort-Tracked site faults identity id db payload
  perform-Tracked (commit_request clock draws history_id) = commit-Tracked clock draws history_id
