-- ===== src/Vaults/Absent.antt =====
-- crates/zann-server/src/domains/vaults/service.rs: the tables after a vault is marked as deleted.
use mathlib.Core.Path.{subst}
use zann.Base.{
  text_eq→eq, All, ℕ, ◌≡◌, ◌≢◌, sym, ◌∙◌, refl, ap, Bool, true, false, Bool-cases, inl, inr, ◌&&◌,
  not, List, [], ◌∷◌, Text, text_eq, any, none, some, ok, arith, ◌==◌, map, find_first,
  if◌then◌else◌,
}
use zann.Core.Structs.{Identity, Vault, VaultMember}
use zann.Access.Vault.{is_none, get_vault}
use zann.Auth.Store.{AuthDb}
use zann.Auth.PersonalVault.{is_personal, owned_by}
use zann.Auth.Keyed.{find_first-test, All-find, some-inj, text_ne}
use zann.Vaults.Service.{VaultFaults, by_id, get_by_slug}
use zann.Vaults.Existing.{is_version, deleted, update_rows, run_update}

-- Vaults with different ids and slugs.
abbrev pub Apart : Vault → Vault → Type 0
Apart v w = (w.id ≢ v.id) × (w.slug ≢ v.slug)

-- The primary key and the unique slugs of the vaults.
abbrev pub Distinct : List Vault → Type 0
Distinct [] = Unit
Distinct (w ∷ ws) = All (Apart w) ws × Distinct ws

-- Whether the user has a live personal vault besides this one.
abbrev pub has_other_vault : ℕ → Vault → AuthDb → Bool
has_other_vault user_id v db =
    any (λ w. not (is_version v w) && owned_by user_id db.vault_members w) db.vaults

module _ (now : ℕ) (identity : Identity) (v : Vault) where
  abbrev marked : Vault → Vault
  marked w = if is_version v w then deleted now identity w else w

  -- The tables after the deletion.
  abbrev pub without : AuthDb → AuthDb
  without db = update_rows (is_version v) (deleted now identity) db

  pub owned-after :
      (user_id : ℕ) (members : List VaultMember) (vaults : List Vault)
      → any (λ w. not (is_version v w) && owned_by user_id members w) vaults ≡ false
      → any (owned_by user_id members) (map marked vaults) ≡ false
  owned-after user_id members [] h = refl
  owned-after user_id members (w ∷ ws) h = elim (Bool-cases (is_version v w)) [
    | inl k ↦
        let rest = owned-after user_id members ws (rw k at h) in
        elim (Bool-cases (is_personal w.kind)) [ inl p ↦ rw (k, p) rest | inr p ↦ rw (k, p) rest ]
    | inr k ↦ elim (Bool-cases (owned_by user_id members w)) [
      | inl o ↦ absurd (ground (arith, h, k, o))
      | inr o ↦ rw (k, o) (owned-after user_id members ws (rw (k, o) at h))
    ]
  ]

  pub slug-after :
      (slug : Text) (vaults : List Vault)
      → any (λ w. text_eq w.slug slug) vaults ≡ true
      → any (λ w. text_eq w.slug slug) (map marked vaults) ≡ true
  slug-after slug [] h = h
  slug-after slug (w ∷ ws) h = elim (Bool-cases (text_eq w.slug slug)) [
    | inl s ↦ elim (Bool-cases (is_version v w)) [ inl k ↦ rw (k, s) refl | inr k ↦ rw (k, s) refl ]
    | inr s ↦
        let rest = slug-after slug ws (rw s at h) in
        elim (Bool-cases (is_version v w)) [ inl k ↦ rw (k, s) rest | inr k ↦ rw (k, s) rest ]
  ]

  pub run_update-rows :
      (fails : Bool) (db db' : AuthDb)
      → run_update fails (is_version v) (deleted now identity) db ≡ (ok tt, db')
      → (any (is_version v) db.vaults ≡ true)
        × (db' ≡ update_rows (is_version v) (deleted now identity) db)
  run_update-rows fails db db' e = elim (Bool-cases fails) [
    | inl f ↦ absurd (ground (arith, e, f))
    | inr f ↦ elim (Bool-cases (any (is_version v) db.vaults)) [
      | inr n ↦ absurd (ground (arith, e, f, n))
      | inl y ↦ (y, ground (arith, e, f, y))
    ]
  ]

  module _ (q : Vault → Bool) where
    abbrev live : Vault → Bool
    live w = q w && is_none w.deleted_at

    absent :
        (vaults : List Vault)
        → All (Apart v) vaults
        → ((w : Vault) → Apart v w → q w ≡ false)
        → find_first live (map marked vaults) ≡ none
    absent [] h apart = refl
    absent (w ∷ ws) h apart =
        let other : is_version v w ≡ false = ground (arith, h.0.0) in
        rw (other, apart w h.0) (absent ws h.1 apart)

    find-after :
        (vaults : List Vault)
        → Distinct vaults
        → find_first live vaults ≡ some v
        → ((w : Vault) → Apart v w → q w ≡ false)
        → find_first live (map marked vaults) ≡ none
    find-after [] distinct e apart = refl
    find-after (w ∷ ws) distinct e apart = elim (Bool-cases (live w)) [
      | inl k ↦
          let at_head : w ≡ v = some-inj w v (rw k at e) in
          let mine : is_version v w ≡ true =
            ground (
              arith,
              ap (λ (x : Vault). x.id) at_head,
              ap (λ (x : Vault). x.row_version) at_head,
            ) in
          let rest = absent ws (subst (λ x. All (Apart x) ws) at_head distinct.0) apart in
          elim (Bool-cases (q (deleted now identity w))) [
            | inl l ↦ rw (mine, l) rest
            | inr l ↦ rw (mine, l) rest
          ]
      | inr k ↦
          let later : find_first live ws ≡ some v = rw k at e in
          let away = All-find (Apart w) live ws v distinct.0 later in
          let other : is_version v w ≡ false = ground (arith, away.0) in
          rw (other, k) (find-after ws distinct.1 later apart)
    ]

module _ (faults : VaultFaults) (now : ℕ) (identity : Identity) (v : Vault) (db : AuthDb) where
  pub by_id_after :
      (id : ℕ)
      → Distinct db.vaults
      → by_id faults db id ≡ ok (some v)
      → find_first (λ w. w.id == id && is_none w.deleted_at) (without now identity v db).vaults
        ≡ none
  unfolding get_vault
  by_id_after id distinct e = elim (Bool-cases faults.vaults_fail) [
    | inl f ↦ absurd (ground (arith, e, f))
    | inr f ↦
        let q = λ (w : Vault). w.id == id in
        let found : find_first (λ w. q w && is_none w.deleted_at) db.vaults ≡ some v =
          ground (arith, e, f) in
        let own = find_first-test (λ w. q w && is_none w.deleted_at) db.vaults v found in
        find-after now identity v q db.vaults distinct found
          (λ w apart. ground (arith, own, apart.0))
  ]

  pub by_slug_after :
      (slug : Text)
      → Distinct db.vaults
      → get_by_slug faults db slug ≡ ok (some v)
      → find_first
          (λ w. text_eq w.slug slug && is_none w.deleted_at)
          (without now identity v db).vaults
        ≡ none
  unfolding get_by_slug
  by_slug_after slug distinct e = elim (Bool-cases faults.vaults_fail) [
    | inl f ↦ absurd (ground (arith, e, f))
    | inr f ↦
        let q = λ (w : Vault). text_eq w.slug slug in
        let found : find_first (λ w. q w && is_none w.deleted_at) db.vaults ≡ some v =
          ground (arith, e, f) in
        let own : text_eq v.slug slug ≡ true =
          ground (arith, find_first-test (λ w. q w && is_none w.deleted_at) db.vaults v found) in
        let named = text_eq→eq v.slug slug own in
        find-after now identity v q db.vaults distinct found
          (λ w apart. text_ne w.slug slug (λ s. apart.1 (s ∙ sym named)))
  ]
