-- ===== src/Sync/Pruning.antt =====
-- The rows of item_history: what an insertion and a pruning do to the entries of each item.
use zann.Base.{
  ℕ, zero, suc, ◌≤◌, ◌≡◌, refl, ap, ◌∙◌, Bool, false, not, List, [], ◌∷◌, ◌++◌, length,
  length-append, keep, length-keep-le, take, drop, All, arith,
}
use zann.Core.Structs.{ItemHistory}
use zann.Sync.Store.{of_item, insert_desc, sort_desc, beyond, listed, prune_rows}

module _ {ℓ} {A : Type ℓ} where
  keep_comm : (p q : A → Bool) (xs : List A) → keep p (keep q xs) ≡ keep q (keep p xs)
  keep_comm p q [] = refl
  keep_comm p q (x ∷ xs) = ground (arith, keep_comm p q xs)

  pub keep-append : (p : A → Bool) (xs ys : List A) → keep p (xs ++ ys) ≡ keep p xs ++ keep p ys
  keep-append p [] ys = refl
  keep-append p (x ∷ xs) ys = ground (arith, keep-append p xs ys)

  take-append-drop : (n : ℕ) (xs : List A) → take n xs ++ drop n xs ≡ xs
  take-append-drop zero xs = refl
  take-append-drop (suc n) [] = refl
  take-append-drop (suc n) (x ∷ xs) = rw (take-append-drop n xs)

  length-take-le : (n : ℕ) (xs : List A) → length (take n xs) ≤ n
  length-take-le zero xs = omega arith
  length-take-le (suc n) [] = omega arith
  length-take-le (suc n) (x ∷ xs) = omega (arith, length-take-le n xs)

  keep_none : (p : A → Bool) (xs : List A) → All (λ x. p x ≡ false) xs → keep p xs ≡ []
  keep_none p [] h = refl
  keep_none p (x ∷ xs) h = ground (arith, keep_none p xs h.1)

  All-imp {κ λ'} :
      {P : A → Type κ} {Q : A → Type λ'} (xs : List A) → ((x : A) → P x → Q x) → All P xs → All Q xs
  All-imp [] f h = tt
  All-imp (x ∷ xs) f h = (f x h.0, All-imp xs f h.1)

abbrev pub entries : ℕ → List ItemHistory → ℕ
entries item_id rows = length (keep (of_item item_id) rows)

module _ (p : ItemHistory → Bool) where
  insert_desc_count :
      (h : ItemHistory) (rows : List ItemHistory)
      → length (keep p (insert_desc h rows)) ≡ length (keep p (h ∷ rows))
  insert_desc_count h [] = refl
  insert_desc_count h (r ∷ rows) = ground (arith, insert_desc_count h rows)

  sort_desc_count :
      (rows : List ItemHistory) → length (keep p (sort_desc rows)) ≡ length (keep p rows)
  sort_desc_count [] = refl
  sort_desc_count (h ∷ rows) =
      insert_desc_count h (sort_desc rows) ∙ ground (arith, sort_desc_count rows)

listed-All : (old : List ItemHistory) → All (λ h. not (listed old h) ≡ false) old
listed-All [] = tt
listed-All (h ∷ old) = (ground arith, All-imp old (λ r e. ground (arith, e)) (listed-All old))

-- After the pruning an item has at most `limit` entries.
pub entries-prune-le :
    (item_id limit : ℕ) (rows : List ItemHistory)
    → entries item_id (prune_rows item_id limit rows) ≤ limit
entries-prune-le item_id limit rows =
    let mine = keep (of_item item_id) rows in
    let sorted = sort_desc mine in
    let alive = λ (h : ItemHistory). not (listed (beyond item_id limit rows) h) in
    let split = ap (λ l. length (keep alive l)) (take-append-drop limit sorted) in
    omega (
      arith,
      ap length (keep_comm (of_item item_id) alive rows),
      sort_desc_count alive mine,
      split,
      ap length (keep-append alive (take limit sorted) (drop limit sorted)),
      length-append (keep alive (take limit sorted)) (keep alive (drop limit sorted)),
      ap length (keep_none alive (drop limit sorted) (listed-All (drop limit sorted))),
      length-keep-le alive (take limit sorted),
      length-take-le limit sorted,
    )

-- It adds no entries to any item.
pub entries-prune-keeps :
    (item_id limit j : ℕ) (rows : List ItemHistory)
    → entries j (prune_rows item_id limit rows) ≤ entries j rows
entries-prune-keeps item_id limit j rows =
    let alive = λ (h : ItemHistory). not (listed (beyond item_id limit rows) h) in
    omega (
      arith,
      ap length (keep_comm (of_item j) alive rows),
      length-keep-le alive (keep (of_item j) rows),
    )
