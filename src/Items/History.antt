-- ===== src/Items/History.antt =====
-- crates/zann-server/src/domains/items/service.rs: the versions that `list_item_versions` lists.
use mathlib.Core.List.{Perm}
use mathlib.Core.Path.{subst}
use zann.Base.{
  ℕ, ℤ, pos, negsuc, ◌≡◌, sym, ◌∙◌, ap, ◌≤◌, Bool-cases, inl, inr, List, Text, codes, Option,
  Option-cases, ok, Result, Result-cases, unwrap_or, arith, ◌==◌, keep, take, drop, ◌++◌, length,
  min,
}
use zann.Errors.{ServiceError}
use zann.Core.Structs.{Identity, Item, ItemHistory, Vault}
use zann.Auth.Keyed.{find_first-test}
use zann.Sync.Store.{of_item, sort_desc}
use zann.Sync.Pull.{clamp}
use zann.Items.Store.{
  ItemDb, ItemSite, ItemFaults, item_by_id, item_in_vault, authorize_vault_access,
}
use zann.Items.Read.{readable_item, list_item_versions, may_read, item_resource}
use zann.Items.Newest.{
  Descending, Newer, length-sort_desc, length-take, sort_desc-perm, take-drop, take-Newer,
  take-Descending, sort_desc-Descending,
}

-- The number of versions that a request asks for.
abbrev pub asked_limit : Option ℤ → ℕ
asked_limit asked = clamp 5 (unwrap_or asked (pos 5))

clamp-within : (n : ℤ) → (1 ≤ clamp 5 n) × (clamp 5 n ≤ 5)
clamp-within (pos n) = (omega arith, omega arith)
clamp-within (negsuc n) = (omega arith, omega arith)

-- What a request for the versions of an item lists.
abbrev pub IsListing : ItemDb → ℕ → Option ℤ → List ItemHistory → Type 0
IsListing db item_id asked versions =
    (length versions
      ≡ min (asked_limit asked) (length (keep (of_item item_id) db.tables.item_history)))
    × (1 ≤ asked_limit asked)
    × (length versions ≤ 5)
    × Descending versions
    × ((rest : List ItemHistory) × (Perm (versions ++ rest)
            (keep (of_item item_id) db.tables.item_history)
          × Newer versions rest))

newest-IsListing :
    (db : ItemDb) (item_id : ℕ) (asked : Option ℤ)
    → IsListing db item_id asked
        (take (asked_limit asked) (sort_desc (keep (of_item item_id) db.tables.item_history)))
newest-IsListing db item_id asked =
    let k = asked_limit asked in
    let mine = keep (of_item item_id) db.tables.item_history in
    let sorted = sort_desc mine in
    let len = length-take k sorted ∙ ap (min k) (length-sort_desc mine) in
    let most = clamp-within (unwrap_or asked (pos 5)) in
    (
      len,
      most.0,
      omega (arith, len, most.1),
      take-Descending k sorted (sort_desc-Descending mine),
      (
        drop k sorted,
        (
          subst (λ l. Perm l mine) (sym (take-drop k sorted)) (sort_desc-perm mine),
          take-Newer k sorted (sort_desc-Descending mine),
        ),
      ),
    )

module _ (site : ItemSite) (faults : ItemFaults) (identity : Identity) (vault_id : Text)
    (db : ItemDb) (item_id : ℕ) where
  item_in_vault-id :
      (vault : Vault) (item : Item)
      → item_in_vault faults db item_id vault ≡ ok item
      → item.id ≡ item_id
  unfolding item_in_vault item_by_id
  item_in_vault-id vault item e = elim (Bool-cases faults.item_read_fails) [
    | inl f ↦ absurd (ground (arith, e, f))
    | inr f ↦ elim (Option-cases (item_by_id db item_id)) [
      | inl n ↦ absurd (ground (arith, e, f, n))
      | inr (i, n) ↦
          let own = find_first-test (λ (x : Item). x.id == item_id) db.tables.items i n in
          ground (arith, e, f, n, own)
    ]
  ]

  readable_item-id :
      (rest : Text) (found : Vault × Item)
      → readable_item site faults identity vault_id db item_id rest ≡ ok found
      → found.1.id ≡ item_id
  unfolding readable_item
  readable_item-id rest found e =
      let resource = item_resource site faults identity vault_id db item_id rest in
      elim (Result-cases (authorize_vault_access site identity vault_id (codes "read") resource)) [
        | inr (x, a) ↦ absurd (ground (arith, e, a))
        | inl (v, a) ↦ elim (Result-cases (item_in_vault faults db item_id v)) [
          | inr (x, i) ↦ absurd (ground (arith, e, a, i))
          | inl (item, i) ↦
              elim (Bool-cases (may_read site faults identity vault_id db v item.path)) [
                | inr m ↦ absurd (ground (arith, e, a, i, m))
                | inl m ↦
                    let same : ◌≡◌ {A = Result ServiceError (Vault × Item)} (ok (v, item))
                        (ok found) =
                      rw (a, i, m) at e in
                    second same (item_in_vault-id v item i)
              ]
        ]
      ]
    where
      second :
          {v : Vault} {item : Item}
          → ◌≡◌ {A = Result ServiceError (Vault × Item)} (ok (v, item)) (ok found)
          → item.id ≡ item_id
          → found.1.id ≡ item_id
      second {v} {item} q h = subst (λ (f : Vault × Item). f.1.id ≡ item_id) (inj q) h
        where
          inj :
              ◌≡◌ {A = Result ServiceError (Vault × Item)} (ok (v, item)) (ok found)
              → (v, item) ≡ found
          inj r = cc

-- A successful request for the versions of an item lists its newest entries of history, newest first: as
-- many as it asks for, cut to between one and five, or all where there are fewer. With the entries of
-- the item that are left out, none of them newer than one that is listed, they are its whole history.
pub list_item_versions-IsListing :
    (site : ItemSite) (faults : ItemFaults) (identity : Identity) (vault_id : Text) (db : ItemDb)
    (item_id : ℕ) (asked : Option ℤ) (versions : List ItemHistory)
    → list_item_versions site faults identity vault_id db item_id asked ≡ ok versions
    → IsListing db item_id asked versions
unfolding list_item_versions
list_item_versions-IsListing site faults identity vault_id db item_id asked versions e =
    elim (Result-cases
      (readable_item site faults identity vault_id db item_id (codes "/versions"))) [
        | inr (x, r) ↦ absurd (ground (arith, e, r))
        | inl (found, r) ↦ elim (Bool-cases faults.history_read_fails) [
          | inl f ↦ absurd (ground (arith, e, r, f))
          | inr f ↦
              let same = readable_item-id site faults identity vault_id db item_id _ found r in
              let shown : take (asked_limit asked)
                    (sort_desc (keep (of_item found.1.id) db.tables.item_history))
                  ≡ versions =
                ground (arith, e, r, f) in
              subst (IsListing db item_id asked) (rw same at shown)
                (newest-IsListing db item_id asked)
        ]
      ]
