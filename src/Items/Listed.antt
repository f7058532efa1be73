-- ===== src/Items/Listed.antt =====
-- crates/zann-server/src/domains/items/service.rs: a service account is listed only items that some
-- scope of it lets it list.
use mathlib.Core.Path.{subst}
use zann.Base.{
  ℕ, ◌≡◌, true, Bool-cases, inl, inr, List, [], ◌∷◌, ◌++◌, Text, codes, Option, some, ok,
  Result-cases, arith, ◌==◌, All, any, keep, leb,
}
use zann.Base.Slices.{All-keep}
use zann.External.{External}
use zann.Core.Structs.{Identity, Item, Vault, ServiceAccount}
use zann.Access.Vault.{get_account}
use zann.Items.Scopes.{
  normalize_prefix, prefix_match, scope_matches_prefix, matched_rules, permits_path,
  service_account_allows_prefix,
}
use zann.Items.Store.{ItemDb, ItemSite, ItemFaults, authorize_vault_access}
use zann.Sync.Store.{Tables, is_active}
use zann.Sync.Shared.Pull.{list_by_vault, insert_newest, sort_newest}
use zann.Vaults.Service.{access_db, find_vault}
use zann.Items.Read.{list_items, may_list}
use zann.Items.Covered.{IsTidy, any-keep, any-permits, allows_prefix-account}

module _ (P Q R : Item → Type 0) where
  All-both : (xs : List Item) → ((x : Item) → P x → Q x → R x) → All P xs → All Q xs → All R xs
  All-both [] f h k = tt
  All-both (x ∷ xs) f h k = (f x h.0 k.0, All-both xs f h.1 k.1)

module _ (P : Item → Type 0) where
  insert_newest-All : (i : Item) (xs : List Item) → P i → All P xs → All P (insert_newest i xs)
  insert_newest-All i [] p h = (p, tt)
  insert_newest-All i (x ∷ xs) p h = elim (Bool-cases (leb x.updated_at i.updated_at)) [
    | inl k ↦ rw k (p, h)
    | inr k ↦ rw k (h.0, insert_newest-All i xs p h.1)
  ]

  sort_newest-All : (xs : List Item) → All P xs → All P (sort_newest xs)
  sort_newest-All [] h = tt
  sort_newest-All (x ∷ xs) h = insert_newest-All x (sort_newest xs) h.0 (sort_newest-All xs h.1)

list_by_vault-All : (t : Tables) (id : ℕ) → All (λ i. i.vault_id ≡ id) (list_by_vault t id)
list_by_vault-All t id =
    sort_newest-All (λ i. i.vault_id ≡ id) _
      (All-both (λ i. (i.vault_id == id) ≡ true) (λ i. (i.vault_id == id) ≡ true)
        (λ i. i.vault_id ≡ id) (keep (λ i. i.vault_id == id) t.items) (λ i e f. ground (arith, e))
        (any-keep (λ i. i.vault_id == id) t.items) (any-keep (λ i. i.vault_id == id) t.items))

vault_located :
    (site : ItemSite) (identity : Identity) (vault_id action resource : Text) (vault : Vault)
    → authorize_vault_access site identity vault_id action resource ≡ ok vault
    → find_vault site.vaults site.vault_faults site.auth_db vault_id ≡ ok (some vault)
unfolding authorize_vault_access
vault_located site identity vault_id action resource vault e = ground arith

-- An active item of the vault, at a path that some scope of the account lets it list.
abbrev pub IsOpen : External → Vault → ServiceAccount → Item → Type 0
IsOpen ext vault account i =
    (i.vault_id ≡ vault.id)
    × (is_active i.sync_status ≡ true)
    × (any (permits_path ext vault (codes "list") i.path) account.scopes ≡ true)

-- What a service account is listed of the vault that it names.
abbrev pub IsPermitted : ItemSite → Text → ℕ → List Item → Type 0
IsPermitted site vault_id account_id items =
    (vault : Vault) × ((account : ServiceAccount) × ((find_vault site.vaults site.vault_faults
            site.auth_db vault_id
          ≡ ok (some vault))
        × (get_account (access_db site.vault_faults site.auth_db) account_id ≡ ok (some account))
        × All (IsOpen site.vaults.auth.ext vault account) items))

rows-Open :
    (ext : External) (vault : Vault) (account : ServiceAccount) (prefix : Option Text) (t : Tables)
    → IsTidy prefix
    → any
        (λ rule. scope_matches_prefix ext rule vault prefix)
        (matched_rules ext vault (codes "list") account.scopes)
      ≡ true
    → All (IsOpen ext vault account) (
        keep
          (λ i. prefix_match prefix i.path)
          (keep (λ i. is_active i.sync_status) (list_by_vault t vault.id)))
rows-Open ext vault account prefix t tidy covers_it =
    let P = λ (i : Item). prefix_match prefix i.path in
    let A = λ (i : Item). is_active i.sync_status in
    let V = λ (i : Item). i.vault_id ≡ vault.id in
    let rows = list_by_vault t vault.id in
    let own = All-keep V P (keep A rows) (All-keep V A rows (list_by_vault-All t vault.id)) in
    let live = All-keep (λ i. A i ≡ true) P (keep A rows) (any-keep A rows) in
    All-both (λ i. P i ≡ true) (λ i. V i × (A i ≡ true)) (IsOpen ext vault account)
      (keep P (keep A rows))
      (λ i inside h. (
        h.0,
        h.1,
        any-permits ext vault (codes "list") prefix i.path account.scopes tidy inside covers_it,
      ))
      (any-keep P (keep A rows))
      (All-both V (λ i. A i ≡ true) (λ i. V i × (A i ≡ true)) (keep P (keep A rows))
        (λ i a b. (a, b)) own live)

-- A service account is listed only active items of the vault that it names, at paths that some scope
-- of it lets it list in that vault, where the prefix that it asks for has no blank or slash at its
-- ends.
pub list_items-IsPermitted :
    (site : ItemSite) (faults : ItemFaults) (identity : Identity) (vault_id : Text) (db : ItemDb)
    (given : Option Text) (items : List Item) (account_id : ℕ)
    → identity.service_account_id ≡ some account_id
    → IsTidy (normalize_prefix given)
    → list_items site faults identity vault_id db given ≡ ok items
    → IsPermitted site vault_id account_id items
unfolding list_items
list_items-IsPermitted site faults identity vault_id db given items account_id acting tidy e =
    let resource = codes "vaults/" ++ (vault_id ++ codes "/items") in
    elim (Result-cases (authorize_vault_access site identity vault_id (codes "list") resource)) [
      | inr (x, a) ↦ absurd (ground (arith, e, a))
      | inl (vault, a) ↦
          let prefix = normalize_prefix given in
          elim (Bool-cases (may_list site faults identity vault_id db vault prefix)) [
            | inr m ↦ absurd (ground (arith, e, a, m))
            | inl m ↦ elim (Bool-cases faults.item_read_fails) [
              | inl f ↦ absurd (ground (arith, e, a, m, f))
              | inr f ↦
                  let ext = site.vaults.auth.ext in
                  let access = access_db site.vault_faults site.auth_db in
                  let allows : service_account_allows_prefix ext access account_id vault
                        (codes "list") prefix
                      ≡ true =
                    rw acting at m in
                  let found =
                    allows_prefix-account ext access account_id vault (codes "list") prefix
                      allows in
                  (
                    vault,
                    (
                      found.0,
                      (
                        vault_located site identity vault_id _ _ vault a,
                        found.1,
                        subst (All (IsOpen ext vault found.0)) (ground (arith, e, a, m, f))
                            (rows-Open ext vault found.0 prefix db.tables tidy found.2),
                      ),
                    ),
                  )
            ]
          ]
    ]
