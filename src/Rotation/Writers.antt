-- ===== src/Rotation/Writers.antt =====
-- crates/zann-server/src/domains/vaults/http/v1/shared/handlers: a start and an abort make at most their
-- moves.
use mathlib.Core.Path.{subst}
use zann.Base.{
  ℕ, ◌≡◌, ◌≢◌, refl, sym, ◌∙◌, ap, true, false, ◌&&◌, ◌||◌, Bool-cases, Result-cases, inl, inr,
  Option, none, some, Text, ok, arith, if◌then◌else◌, codes,
}
use zann.Core.Structs.{Identity, Item}
use zann.Crypto.Envelope.{Draws}
use zann.Rotation.Types.{
  RotationRow, RotateAbortRequest, rotation_state_rotating, rotation_state_stale,
}
use zann.Rotation.Password.{Choices}
use zann.Rotation.Store.{
  Site, ItemRow, RotationDb, RotationFaults, find_row, state_is, passed, write_start, write_abort,
}
use zann.Rotation.Start.{StartPlan, plan_start, conclude_start, rotate_start}
use zann.Rotation.Abort.{plan_abort, rotate_abort}
use zann.Rotation.Commit.{Clock}
use zann.Rotation.Authorise.{authorise, rotation_of}
use zann.Access.Vault.{is_none}
use zann.Rotation.Store.{started, cleared}
use zann.Rotation.Commit.{check_state}
use zann.Rotation.Machine.{start_request, abort_request, Tracked, kept-Tracked}
use zann.Rotation.Readers.{update-Tracked, authorised-id, rotation_of-row}

pub check_state-open :
    (clock : Clock) (row : RotationRow) (enc : _)
    → check_state clock row ≡ ok enc
    → (state_is rotation_state_rotating row.state || state_is rotation_state_stale row.state) ≡ true
unfolding check_state
check_state-open clock row enc e =
    elim (Bool-cases
      (state_is rotation_state_rotating row.state && passed clock.at_expiry row.expires_at)) [
        | inl b ↦ ground (arith, b)
        | inr b ↦ ground (arith, e, b)
      ]

pub some_none : {A : Type 0} (o : Option A) (a : A) → o ≡ some a → o ≢ none
some_none o a e n = cc

idle : (o : Option Text) → is_none o ≡ true → o ≡ none
idle none e = refl
idle (some t) e = cc

taken : (o : Option Text) → is_none o ≡ false → o ≢ none
taken none e n = cc
taken (some t) e n = cc

module _ (site : Site) (faults : RotationFaults) (identity : Identity) (id : ℕ)
    (db : RotationDb) where
  planned :
      (policy : Option Text) (choices : Choices) (draws : Draws) (plan : StartPlan)
      → plan_start site faults identity id policy choices draws db ≡ ok plan
      → plan.item.id ≡ id
  unfolding plan_start
  planned policy choices draws plan e =
      elim (Result-cases (
        authorise site faults identity id (codes "rotate_start") (codes "shared/items/rotate/start")
          db)) [
            | inr (x, a) ↦ absurd (ground (arith, e, a))
            | inl ((item, vault), a) ↦
                let same : item ≡ plan.item = ground (arith, e, a) in
                sym (ap (λ (o : Item). o.id) same)
                ∙ authorised-id site faults identity id db _ _ item vault a
          ]

  pub start-Tracked :
      (policy : Option Text) (choices : Choices) (draws : Draws) (now : ℕ)
      → Tracked id
          (start_request policy choices draws now)
          db
          (rotate_start site faults identity id policy choices draws now db).1
  unfolding rotate_start conclude_start write_start
  start-Tracked policy choices draws now =
      let request = start_request policy choices draws now in
      elim (Result-cases (plan_start site faults identity id policy choices draws db)) [
        | inr (x, e) ↦ rw (e, rotate_start) (kept-Tracked id request db)
        | inl (plan, e) ↦
            let own = planned policy choices draws plan e in
            let moved =
              update-Tracked id (λ r. is_none r.rotation.state)
                (λ r. record r { rotation = started site identity now plan.candidate_enc })
                (λ r. refl) request db
                (λ row found t. (idle row.rotation.state t, refl, some_none _ _ refl)) in
            let moved_at =
              subst
                (λ i.
                  Tracked id request db (write_start site identity i now plan.candidate_enc db).1)
                (sym own) moved in
            rw (e, rotate_start)
              (elim (Bool-cases faults.write_fails) [
                | inl f ↦ rw f (kept-Tracked id request db)
                | inr f ↦
                    rw f
                      (elim (Bool-cases
                        (write_start site identity plan.item.id now plan.candidate_enc db).0) [
                          | inl w ↦ rw w moved_at
                          | inr w ↦ rw w moved_at
                        ])
              ])
      ]

  abortable :
      (payload : RotateAbortRequest) (item : Item)
      → plan_abort site faults identity id payload db ≡ ok item
      → (item.id ≡ id) × ((row : ItemRow) → find_row id db ≡ some row → row.rotation.state ≢ none)
  unfolding plan_abort
  abortable payload item e =
      let action = if payload.force then codes "rotate_abort_force" else codes "rotate_abort" in
      let resource = codes "shared/items/rotate/abort" in
      elim (Result-cases (authorise site faults identity id action resource db)) [
        | inr (x, a) ↦ absurd (ground (arith, e, a))
        | inl ((i, vault), a) ↦
            let own = authorised-id site faults identity id db action resource i vault a in
            elim (Result-cases (rotation_of site faults i.id db)) [
              | inr (x, r) ↦ absurd (ground (arith, e, a, r))
              | inl (rotation, r) ↦ elim (Bool-cases (is_none rotation.state)) [
                | inl n ↦ absurd (ground (arith, e, a, r, n))
                | inr n ↦
                    let same : i ≡ item = ground (arith, e, a, r, n) in
                    let at = subst (λ k. rotation_of site faults k db ≡ ok rotation) own r in
                    (
                      sym (ap (λ (o : Item). o.id) same) ∙ own,
                      λ row found.
                          subst (λ (r : RotationRow). r.state ≢ none)
                            (rotation_of-row site faults identity id db rotation row at found)
                            (taken rotation.state n),
                    )
              ]
            ]
      ]

  pub abort-Tracked :
      (payload : RotateAbortRequest)
      → Tracked id (abort_request payload) db (rotate_abort site faults identity id payload db).1
  unfolding rotate_abort write_abort
  abort-Tracked payload =
      let request = abort_request payload in
      elim (Result-cases (plan_abort site faults identity id payload db)) [
        | inr (x, e) ↦ rw (e, rotate_abort) (kept-Tracked id request db)
        | inl (item, e) ↦
            let moved =
              update-Tracked id (λ r. true) (λ r. record r { rotation = cleared payload.reason })
                (λ r. refl) request db
                (λ row found t. ((abortable payload item e).1 row found, refl, refl)) in
            let own = (abortable payload item e).0 in
            rw (e, rotate_abort)
              (elim (Bool-cases faults.write_fails) [
                | inl f ↦ rw f (kept-Tracked id request db)
                | inr f ↦ rw f (
                    subst (λ i. Tracked id request db (write_abort i payload.reason db)) (sym own)
                      moved)
              ])
      ]
