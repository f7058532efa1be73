-- ===== src/Rotation/Expired.antt =====
-- crates/zann-server/src/domains/vaults/http/v1/shared/handlers: a rotation whose time to recover is
-- over, before the clean-up of crates/zann-server/src/infra/history.rs has met it.
use mathlib.Core.Path.{subst}
use zann.Base.{
  ℕ, ◌<◌, ◌≡◌, refl, sym, ◌∙◌, ap, true, false, ◌&&◌, Bool-cases, Option, some, Option-cases,
  Result-cases, is_ok, inl, inr, Text, codes, Result, ok, arith,
}
use zann.Core.Structs.{Identity, Vault, Item}
use zann.Crypto.Envelope.{Draws}
use zann.Rotation.Types.{HttpError, RotationRow, rotation_state_rotating, rotation_state_stale}
use zann.Rotation.Password.{Choices}
use zann.Rotation.Store.{
  Site, ItemRow, RotationDb, RotationFaults, find_row, passed, state_is, fetch_rotation_row,
  normalize_rotation_state,
}
use zann.Rotation.Authorise.{authorise, master_key, rotation_of}
use zann.Rotation.Start.{plan_start, rotate_start}
use zann.Rotation.Read.{load, with_rotation, rotate_recover, stale_answer}
use zann.Rotation.Commit.{Clock, CommitPlan, plan_commit, rotate_commit}
use zann.Rotation.Inversion.{authorise-Authorised, find_row-id}
use zann.Rotation.Written.{check_state-in_time}
use zann.Rotation.Outcome.{plan_commit-Grounds}

-- The item has a rotation, and its time to recover was over before `now`.
pub record IsExpired (item_id now : ℕ) (db : RotationDb) : Type 0 where
  pub row : ItemRow
  pub found : find_row item_id db ≡ some row
  pub label : Text
  pub state : row.rotation.state ≡ some label
  pub recovery : ℕ
  pub recover_until : row.rotation.recover_until ≡ some recovery
  pub over : recovery < now

module _ (site : Site) (faults : RotationFaults) (identity : Identity) (item_id now : ℕ)
    (db : RotationDb) (x : IsExpired item_id now db) where
  open x use {row, found, label, state, recovery, recover_until, over}

  rotation_of-row :
      (rotation : RotationRow)
      → rotation_of site faults item_id db ≡ ok rotation
      → rotation ≡ row.rotation
  unfolding rotation_of fetch_rotation_row
  rotation_of-row rotation e = ground (arith, e, found)

  start_refused :
      (policy : Option Text) (choices : Choices) (draws : Draws)
      → is_ok (plan_start site faults identity item_id policy choices draws db) ≡ false
  unfolding plan_start master_key
  start_refused policy choices draws =
      elim (Result-cases (
        authorise site faults identity item_id (codes "rotate_start")
          (codes "shared/items/rotate/start") db)) [
            | inr (e, a) ↦ ground (arith, a)
            | inl (iv, a) ↦ elim (Option-cases site.server_master_key) [
              | inl m ↦ ground (arith, a, m)
              | inr (smk, m) ↦ elim (Result-cases (rotation_of site faults item_id db)) [
                | inr (e, r) ↦ ground (arith, a, m, r)
                | inl (rotation, r) ↦ ground (arith, a, m, r, rotation_of-row rotation r, state)
              ]
            ]
          ]

  commit_grounds :
      (clock : Clock) (draws : Draws) (plan : CommitPlan)
      → plan_commit site faults identity item_id clock draws db ≡ ok plan
      → clock.at_recovery ≡ now
      → ⊥
  commit_grounds clock draws plan p at =
      let g = plan_commit-Grounds site faults identity item_id clock draws db plan p in
      let a =
        authorise-Authorised site faults identity item_id _ _ db g.item g.vault g.authorised in
      let own : g.item.id ≡ item_id =
        sym (ap (λ (o : Item). o.id) a.same) ∙ find_row-id item_id db.rows a.row a.found in
      let here = subst (λ i. find_row i db ≡ some g.row) own g.located in
      let in_time = check_state-in_time clock g.row.rotation g.candidate_enc g.checked in
      let row_is : g.row ≡ row = ground (arith, here, found) in
      let deadline : g.row.rotation.recover_until ≡ some recovery =
        ap (λ (r : ItemRow). r.rotation.recover_until) row_is ∙ recover_until in
      ground (arith, over, at, rw deadline at in_time)

  commit_refused :
      (clock : Clock) (draws : Draws)
      → clock.at_recovery ≡ now
      → is_ok (plan_commit site faults identity item_id clock draws db) ≡ false
  commit_refused clock draws at =
      elim (Result-cases (plan_commit site faults identity item_id clock draws db)) [
        | inr (e, p) ↦ rw p refl
        | inl (plan, p) ↦ absurd (commit_grounds clock draws plan p at)
      ]

  load_recovers :
      (action resource : Text) (iv : Item × Vault) (rotation : RotationRow)
      → load site faults identity item_id action resource db ≡ ok (iv, rotation)
      → rotation.recover_until ≡ some recovery
  unfolding load rotation_of fetch_rotation_row
  load_recovers action resource iv rotation e =
      elim (Result-cases (authorise site faults identity item_id action resource db)) [
        | inr (y, a) ↦ absurd (ground (arith, e, a))
        | inl ((item, vault), a) ↦
            let auth = authorise-Authorised site faults identity item_id _ _ db item vault a in
            let own : item.id ≡ item_id =
              sym (ap (λ (o : Item). o.id) auth.same)
              ∙ find_row-id item_id db.rows auth.row auth.found in
            let here = subst (λ i. find_row i db ≡ some row) (sym own) found in
            let same : rotation ≡ row.rotation = ground (arith, e, a, here) in
            ap (λ (r : RotationRow). r.recover_until) same ∙ recover_until
      ]

  normalize_keeps :
      (earlier id : ℕ) (rotation rotation' : RotationRow)
      → (normalize_rotation_state faults earlier id rotation db).0 ≡ ok rotation'
      → rotation'.recover_until ≡ rotation.recover_until
  unfolding normalize_rotation_state
  normalize_keeps earlier id rotation rotation' e =
      elim (Bool-cases
        (state_is rotation_state_rotating rotation.state && passed earlier rotation.expires_at)) [
          | inl b ↦ elim (Bool-cases faults.normalize_fails) [
            | inl f ↦ absurd (ground (arith, e, b, f))
            | inr f ↦ ground (arith, e, b, f)
          ]
          | inr b ↦ ground (arith, e, b)
        ]

  stale_answer_late :
      (item : Item) (vault : Vault) (rotation : RotationRow)
      → rotation.recover_until ≡ some recovery
      → is_ok (stale_answer site faults identity item_id now item vault rotation) ≡ false
  unfolding stale_answer
  stale_answer_late item vault rotation e =
      elim (Bool-cases (state_is rotation_state_rotating rotation.state)) [
        | inl b ↦ rw b refl
        | inr b ↦ elim (Bool-cases (state_is rotation_state_stale rotation.state)) [
          | inl s ↦
              let late : passed now rotation.recover_until ≡ true = rw e (ground (arith, over)) in
              rw (b, s, late) refl
          | inr s ↦ rw (b, s) refl
        ]
      ]

  with_rotation_refused :
      {A : Type 0} (action resource : Text) (earlier : ℕ)
      (answer : Item → Vault → RotationRow → Result HttpError A)
      → ((item : Item) (vault : Vault) (rotation : RotationRow)
          → rotation.recover_until ≡ some recovery
          → is_ok (answer item vault rotation) ≡ false)
      → is_ok (with_rotation site faults identity item_id action resource earlier answer db).0
        ≡ false
  unfolding with_rotation
  with_rotation_refused action resource earlier answer late =
      elim (Result-cases (load site faults identity item_id action resource db)) [
        | inr (y, l) ↦ rw (l, with_rotation) refl
        | inl ((iv, rotation), l) ↦
            elim (Result-cases (normalize_rotation_state faults earlier iv.0.id rotation db).0) [
              | inr (y, n) ↦ rw (l, with_rotation, n) refl
              | inl (rotation', n) ↦
                  rw (l, with_rotation, n)
                    (late iv.0 iv.1 rotation' (
                      normalize_keeps earlier iv.0.id rotation rotation' n
                      ∙ load_recovers action resource iv rotation l))
            ]
      ]

  recover_refused :
      (earlier : ℕ) → is_ok (rotate_recover site faults identity item_id earlier now db).0 ≡ false
  unfolding rotate_recover
  recover_refused earlier = with_rotation_refused _ _ earlier _ stale_answer_late

  pub start_refused-db :
      (policy : Option Text) (choices : Choices) (draws : Draws) (at : ℕ)
      → (is_ok (rotate_start site faults identity item_id policy choices draws at db).0 ≡ false)
        × ((rotate_start site faults identity item_id policy choices draws at db).1 ≡ db)
  unfolding rotate_start
  start_refused-db policy choices draws at =
      elim (Result-cases (plan_start site faults identity item_id policy choices draws db)) [
        | inr (y, p) ↦ (rw (p, rotate_start) refl, rw (p, rotate_start) refl)
        | inl (plan, p) ↦ absurd (ground (arith, p, start_refused policy choices draws))
      ]

  pub commit_refused-db :
      (clock : Clock) (draws : Draws) (history_id : ℕ)
      → clock.at_recovery ≡ now
      → (is_ok (rotate_commit site faults identity item_id clock draws history_id db).0 ≡ false)
        × ((rotate_commit site faults identity item_id clock draws history_id db).1 ≡ db)
  unfolding rotate_commit
  commit_refused-db clock draws history_id at =
      elim (Result-cases (plan_commit site faults identity item_id clock draws db)) [
        | inr (y, p) ↦ (rw (p, rotate_commit) refl, rw (p, rotate_commit) refl)
        | inl (plan, p) ↦ absurd (ground (arith, p, commit_refused clock draws at))
      ]

-- Once the time to recover of a rotation is over at the time that the handlers compare it with, whoever
-- asks: no new rotation starts and the old one is not committed, both without a trace in the database,
-- and a request to recover the rotation is answered with an error.
pub expired_rotation_refused :
    (site : Site) (faults : RotationFaults) (identity : Identity) (item_id now : ℕ)
    (db : RotationDb) (policy : Option Text) (choices : Choices) (draws : Draws) (clock : Clock)
    (history_id earlier at : ℕ)
    → IsExpired item_id now db
    → clock.at_recovery ≡ now
    → (is_ok (rotate_start site faults identity item_id policy choices draws at db).0 ≡ false)
      × ((rotate_start site faults identity item_id policy choices draws at db).1 ≡ db)
      × (is_ok (rotate_commit site faults identity item_id clock draws history_id db).0 ≡ false)
      × ((rotate_commit site faults identity item_id clock draws history_id db).1 ≡ db)
      × (is_ok (rotate_recover site faults identity item_id earlier now db).0 ≡ false)
expired_rotation_refused site faults identity item_id now db policy choices draws clock history_id
      earlier at x e =
    let s = start_refused-db site faults identity item_id now db x policy choices draws at in
    let c = commit_refused-db site faults identity item_id now db x clock draws history_id e in
    (s.0, s.1, c.0, c.1, recover_refused site faults identity item_id now db x earlier)
