-- ===== src/Sync/Pull/Rows.antt =====
-- crates/zann-server/src/domains/sync/service.rs: the rows of a vault come in the order of their
-- numbers, and their operations can be read.
use zann.Base.{
  ℕ, suc, ◌≤◌, ◌≡◌, ◌≢◌, refl, Bool-cases, inl, inr, List, [], ◌∷◌, keep, All, leb, find_first,
  Option-cases, arith, ◌==◌,
}
use zann.Core.Structs.{Item, Change}
use zann.Core.Enums.ChangeOp.{ChangeOp, as_i32}
use zann.Sync.Store.{Tables, of_vault}
use zann.Sync.Pull.{SyncPullRow, rows_of_vault, join_items, sort_asc, insert_asc}
use zann.Sync.Pull.Pages.{Ascends, Ascends-lower, Ascends-Sorted, Sorted}

-- `changes.seq` is a primary key.
abbrev pub Distinct : List Change → Type 0
Distinct [] = Unit
Distinct (c ∷ cs) = All (λ d. d.seq ≢ c.seq) cs × Distinct cs

abbrev AscFrom : ℕ → List Change → Type 0
AscFrom bound [] = Unit
AscFrom bound (c ∷ cs) = (bound ≤ c.seq) × AscFrom (suc c.seq) cs

All-insert_asc :
    (P : Change → Type 0) (c : Change) (ds : List Change) → P c → All P ds → All P (insert_asc c ds)
All-insert_asc P c [] p h = (p, tt)
All-insert_asc P c (d ∷ ds) p h = elim (Bool-cases (leb c.seq d.seq)) [
  | inl e ↦ rw e (p, h)
  | inr e ↦ rw e (h.0, All-insert_asc P c ds p h.1)
]

All-sort_asc : (P : Change → Type 0) (cs : List Change) → All P cs → All P (sort_asc cs)
All-sort_asc P [] h = tt
All-sort_asc P (c ∷ cs) h = All-insert_asc P c (sort_asc cs) h.0 (All-sort_asc P cs h.1)

AscFrom-insert_asc :
    (bound : ℕ) (c : Change) (ds : List Change)
    → bound ≤ c.seq
    → AscFrom bound ds
    → All (λ d. d.seq ≢ c.seq) ds
    → AscFrom bound (insert_asc c ds)
AscFrom-insert_asc bound c [] b h n = (b, tt)
AscFrom-insert_asc bound c (d ∷ ds) b h n = elim (Bool-cases (leb c.seq d.seq)) [
  | inl e ↦ let le : suc c.seq ≤ d.seq = ground (arith, e, n.0) in rw e (b, (le, h.1))
  | inr e ↦
      let le : suc d.seq ≤ c.seq = ground (arith, e) in
      rw e (h.0, AscFrom-insert_asc (suc d.seq) c ds le h.1 n.1)
]

AscFrom-sort_asc : (cs : List Change) → Distinct cs → AscFrom 0 (sort_asc cs)
AscFrom-sort_asc [] h = tt
AscFrom-sort_asc (c ∷ cs) h =
    AscFrom-insert_asc 0 c (sort_asc cs) (omega arith) (AscFrom-sort_asc cs h.1)
      (All-sort_asc (λ d. d.seq ≢ c.seq) cs h.0)

module _ (items : List Item) (vault_id : ℕ) where
  Ascends-join_items :
      (n : ℕ) (cs : List Change)
      → AscFrom (suc n) cs
      → Ascends n (join_items items (keep (of_vault vault_id) cs))
  Ascends-join_items n [] h = tt
  Ascends-join_items n (c ∷ cs) h =
      let rest = Ascends-join_items c.seq cs h.1 in
      let low = Ascends-lower n c.seq _ (omega (arith, h.0)) rest in
      elim (Bool-cases (of_vault vault_id c)) [
        | inr k ↦ rw k low
        | inl k ↦ elim (Option-cases (find_first (λ i. i.id == c.item_id) items)) [
          | inl e ↦ rw (k, e) low
          | inr (i, e) ↦ rw (k, e) (h.0, rest)
        ]
      ]

  Sorted-join_items :
      (b : ℕ) (cs : List Change)
      → AscFrom b cs
      → Sorted (join_items items (keep (of_vault vault_id) cs))
  Sorted-join_items b [] h = tt
  Sorted-join_items b (c ∷ cs) h =
      let rest = Ascends-join_items c.seq cs h.1 in
      elim (Bool-cases (of_vault vault_id c)) [
        | inr k ↦ rw k (Ascends-Sorted c.seq _ rest)
        | inl k ↦ elim (Option-cases (find_first (λ i. i.id == c.item_id) items)) [
          | inl e ↦ rw (k, e) (Ascends-Sorted c.seq _ rest)
          | inr (i, e) ↦ rw (k, e) rest
        ]
      ]

  Decodes-join_items :
      (cs : List Change) → All (λ r. (op : ChangeOp) × (r.op ≡ as_i32 op)) (join_items items cs)
  Decodes-join_items [] = tt
  Decodes-join_items (c ∷ cs) = elim (Option-cases (find_first (λ i. i.id == c.item_id) items)) [
    | inl e ↦ rw e (Decodes-join_items cs)
    | inr (i, e) ↦ rw e ((c.op, refl), Decodes-join_items cs)
  ]

-- The rows of a vault ascend, and their operations are written by the server.
pub rows_of_vault-Sorted :
    (t : Tables) (vault_id : ℕ) → Distinct t.changes → Sorted (rows_of_vault t vault_id)
unfolding rows_of_vault
rows_of_vault-Sorted t vault_id h =
    Sorted-join_items t.items vault_id 0 (sort_asc t.changes) (AscFrom-sort_asc t.changes h)

abbrev pub Decodes : SyncPullRow → Type 0
Decodes row = (op : ChangeOp) × (row.op ≡ as_i32 op)

pub rows_of_vault-Decodes : (t : Tables) (vault_id : ℕ) → All Decodes (rows_of_vault t vault_id)
unfolding rows_of_vault
rows_of_vault-Decodes t vault_id =
    Decodes-join_items t.items vault_id (keep (of_vault vault_id) (sort_asc t.changes))
