-- ===== src/Rotation/Readers.antt =====
-- crates/zann-server/src/domains/vaults/http/v1/shared/handlers/rotation_status.rs: a reader makes at
-- most the move to a stale rotation.
use mathlib.Core.Option
use mathlib.Core.Path.{subst}
use zann.Base.{
  ℕ, ◌≡◌, refl, sym, ◌∙◌, ap, Bool, true, false, ◌&&◌, Bool-cases, Result-cases, inl, inr, some,
  List, [], ◌∷◌, map, find_first, Text, Result, ok, arith, if◌then◌else◌, Option-cases,
}
use zann.Core.Structs.{Identity, Vault, Item}
use zann.Rotation.Types.{RotationRow, HttpError, rotation_state_rotating, rotation_state_stale}
use zann.Rotation.Store.{
  Site, ItemRow, RotationDb, RotationFaults, is_row, find_row, update_rows, state_is, passed,
  normalize_rotation_state, write_stale, fetch_rotation_row,
}
use zann.Rotation.Read.{load, with_rotation}
use zann.Rotation.Authorise.{authorise, rotation_of}
use zann.Rotation.Inversion.{authorise-Authorised, find_row-id}
use zann.Rotation.Machine.{Request, Expires, Moves, Tracked, kept-Tracked}

module _ (at : ℕ) (test : ItemRow → Bool) (f : ItemRow → ItemRow)
    (keeps : (r : ItemRow) → (f r).item.id ≡ r.item.id) where
  abbrev changed : ItemRow → ItemRow
  changed r = if is_row at r && test r then f r else r

  changed-id : (r : ItemRow) → (changed r).item.id ≡ r.item.id
  changed-id r = elim (Bool-cases (is_row at r && test r)) [
    | inl k ↦ rw k (keeps r)
    | inr k ↦ rw k refl
  ]

  find-changed :
      (id : ℕ) (rows : List ItemRow)
      → find_first (is_row id) (map changed rows) ≡ Option.map changed (find_first (is_row id) rows)
  find-changed id [] = refl
  find-changed id (r ∷ rs) = elim (Bool-cases (is_row id r)) [
    | inl k ↦ rw (changed-id r, k) refl
    | inr k ↦ rw (changed-id r, k) (find-changed id rs)
  ]

  mine :
      (rows : List ItemRow) (row : ItemRow)
      → find_first (is_row at) rows ≡ some row
      → is_row at row ≡ true
  mine rows row e = ground (arith, find_row-id at rows row e)

  kept_row : (row : ItemRow) → test row ≡ false → changed row ≡ row
  kept_row row t = ground (arith, t)

  pub update-Tracked :
      (request : Request) (db : RotationDb)
      → ((row : ItemRow)
          → find_row at db ≡ some row
          → test row ≡ true
          → Moves request row.rotation (f row).rotation)
      → Tracked at request db (update_rows at test f db)
  update-Tracked request db moves = record {
    others = λ other n. elim (Option-cases (find_row other db)) [
      | inl q ↦ find-changed other db.rows ∙ rw q refl
      | inr (row, q) ↦
          let away : is_row at row ≡ false = ground (arith, n, find_row-id other db.rows row q) in
          find-changed other db.rows ∙ rw (q, away) refl
    ];
    missing = λ n. find-changed at db.rows ∙ rw n refl;
    own = λ row e. elim (Bool-cases (test row)) [
      | inl t ↦ (
        changed row,
        (find-changed at db.rows ∙ rw e refl, rw (mine db.rows row e, t) (inr (moves row e t))),
      )
      | inr t ↦ (
        changed row,
        (
          find-changed at db.rows ∙ rw e refl,
          inl (ap (λ (r : ItemRow). r.rotation) (kept_row row t)),
        ),
      )
    ];
  }

module _ (site : Site) (faults : RotationFaults) (identity : Identity) (id : ℕ)
    (db : RotationDb) where
  pub authorised-id :
      (action resource : Text) (item : Item) (vault : Vault)
      → authorise site faults identity id action resource db ≡ ok (item, vault)
      → item.id ≡ id
  authorised-id action resource item vault e =
      let a = authorise-Authorised site faults identity id action resource db item vault e in
      sym (ap (λ (o : Item). o.id) a.same) ∙ find_row-id id db.rows a.row a.found

  pub rotation_of-row :
      (rotation : RotationRow) (row : ItemRow)
      → rotation_of site faults id db ≡ ok rotation
      → find_row id db ≡ some row
      → rotation ≡ row.rotation
  unfolding rotation_of fetch_rotation_row
  rotation_of-row rotation row e found = ground (arith, e, found)

  -- What a reader has loaded.
  loaded :
      (action resource : Text) (iv : Item × Vault) (rotation : RotationRow)
      → load site faults identity id action resource db ≡ ok (iv, rotation)
      → (iv.0.id ≡ id) × (rotation_of site faults id db ≡ ok rotation)
  unfolding load
  loaded action resource iv rotation e =
      elim (Result-cases (authorise site faults identity id action resource db)) [
        | inr (y, a) ↦ absurd (ground (arith, e, a))
        | inl ((item, vault), a) ↦
            let own = authorised-id action resource item vault a in
            elim (Result-cases (rotation_of site faults item.id db)) [
              | inr (y, r) ↦ absurd (ground (arith, e, a, r))
              | inl (row, r) ↦
                  let at : rotation_of site faults id db ≡ ok row =
                    subst (λ i. rotation_of site faults i db ≡ ok row) own r in
                  let same : item ≡ iv.0 = ground (arith, e, a, r) in
                  let rows : row ≡ rotation = ground (arith, e, a, r) in
                  (
                    sym (ap (λ (o : Item). o.id) same) ∙ own,
                    subst (λ x. rotation_of site faults id db ≡ ok x) rows at,
                  )
            ]
      ]

  stale-Tracked :
      (request : Request) (now : ℕ) (rotation : RotationRow)
      → ((r r' : RotationRow) → Expires now r r' → Moves request r r')
      → rotation_of site faults id db ≡ ok rotation
      → Tracked id request db (normalize_rotation_state faults now id rotation db).1
  unfolding normalize_rotation_state write_stale
  stale-Tracked request now rotation moves is =
      elim (Bool-cases
        (state_is rotation_state_rotating rotation.state && passed now rotation.expires_at)) [
          | inr b ↦ rw b (kept-Tracked id request db)
          | inl b ↦ rw b (elim (Bool-cases faults.normalize_fails) [
            | inl f ↦ rw f (kept-Tracked id request db)
            | inr f ↦ rw f (
                update-Tracked id (λ r. state_is rotation_state_rotating r.rotation.state)
                  (λ r. record r {
                    rotation = record r.rotation { state = some rotation_state_stale };
                  })
                  (λ r. refl) request db
                  (λ row e t.
                    let late : passed now rotation.expires_at ≡ true = ground (arith, b) in
                    moves _ _ (
                      t,
                      subst (λ (r : RotationRow). passed now r.expires_at ≡ true)
                          (rotation_of-row rotation row is e) late,
                      refl,
                      refl,
                    )))
          ])
        ]

  pub with_rotation-Tracked :
      {A : Type 0} (request : Request) (action resource : Text) (now : ℕ)
      (answer : Item → Vault → RotationRow → Result HttpError A)
      → ((r r' : RotationRow) → Expires now r r' → Moves request r r')
      → Tracked id request db
          (with_rotation site faults identity id action resource now answer db).1
  unfolding with_rotation
  with_rotation-Tracked request action resource now answer moves =
      elim (Result-cases (load site faults identity id action resource db)) [
        | inr (x, e) ↦ rw (e, with_rotation) (kept-Tracked id request db)
        | inl ((iv, rotation), e) ↦
            let l = loaded action resource iv rotation e in
            rw (e, with_rotation)
              (subst
                (λ i. Tracked id request db (normalize_rotation_state faults now i rotation db).1)
                (sym l.0) (stale-Tracked request now rotation moves l.1))
      ]
