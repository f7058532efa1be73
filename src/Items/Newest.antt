-- ===== src/Items/Newest.antt =====
-- crates/zann-db/src/repo/items.rs: the newest entries of the history of an item.
use mathlib.Core.List.{Perm}
use mathlib.Core.List.Perm
use zann.Base.{
  ℕ, ◌≡◌, refl, ap, ◌≤◌, Bool-cases, inl, inr, List, [], ◌∷◌, arith, All, take, drop, ◌++◌, length,
  min, leb, zero, suc, ◌+◌,
}
use zann.Base.Slices.{All-take}
use zann.Core.Structs.{ItemHistory}
use zann.Sync.Store.{insert_desc, sort_desc}

-- Newest first.
abbrev pub Descending : List ItemHistory → Type 0
Descending [] = Unit
Descending (h ∷ hs) = All (λ x. x.version ≤ h.version) hs × Descending hs

insert_desc-All :
    (P : ItemHistory → Type 0) (h : ItemHistory) (rows : List ItemHistory)
    → P h
    → All P rows
    → All P (insert_desc h rows)
insert_desc-All P h [] p ps = (p, tt)
insert_desc-All P h (r ∷ rs) p ps = elim (Bool-cases (leb r.version h.version)) [
  | inl k ↦ rw k (p, ps)
  | inr k ↦ rw k (ps.0, insert_desc-All P h rs p ps.1)
]

all_below :
    (m n : ℕ) (rows : List ItemHistory)
    → m ≤ n
    → All (λ x. x.version ≤ m) rows
    → All (λ x. x.version ≤ n) rows
all_below m n [] le ps = tt
all_below m n (r ∷ rs) le ps = (omega (arith, le, ps.0), all_below m n rs le ps.1)

insert_desc-Descending :
    (h : ItemHistory) (rows : List ItemHistory) → Descending rows → Descending (insert_desc h rows)
insert_desc-Descending h [] d = (tt, tt)
insert_desc-Descending h (r ∷ rs) d = elim (Bool-cases (leb r.version h.version)) [
  | inl k ↦
      let le : r.version ≤ h.version = ground (arith, k) in
      rw k ((le, all_below r.version h.version rs le d.0), d)
  | inr k ↦
      let le : h.version ≤ r.version = ground (arith, k) in
      rw k
        (insert_desc-All (λ x. x.version ≤ r.version) h rs le d.0, insert_desc-Descending h rs d.1)
]

pub sort_desc-Descending : (rows : List ItemHistory) → Descending (sort_desc rows)
sort_desc-Descending [] = tt
sort_desc-Descending (h ∷ hs) = insert_desc-Descending h (sort_desc hs) (sort_desc-Descending hs)

pub take-Descending : (k : ℕ) (rows : List ItemHistory) → Descending rows → Descending (take k rows)
take-Descending zero rows d = tt
take-Descending (suc k) [] d = tt
take-Descending (suc k) (r ∷ rs) d =
    (All-take (λ x. x.version ≤ r.version) k rs d.0, take-Descending k rs d.1)

length-insert_desc :
    (h : ItemHistory) (rows : List ItemHistory) → length (insert_desc h rows) ≡ 1 + length rows
length-insert_desc h [] = refl
length-insert_desc h (r ∷ rs) = ground (arith, length-insert_desc h rs)

pub length-sort_desc : (rows : List ItemHistory) → length (sort_desc rows) ≡ length rows
length-sort_desc [] = refl
length-sort_desc (h ∷ hs) = ground (arith, length-insert_desc h (sort_desc hs), length-sort_desc hs)

pub length-take : (k : ℕ) (rows : List ItemHistory) → length (take k rows) ≡ min k (length rows)
length-take zero rows = omega arith
length-take (suc k) [] = omega arith
length-take (suc k) (r ∷ rs) = omega (arith, length-take k rs)

insert_desc-perm :
    (h : ItemHistory) (rows : List ItemHistory) → Perm (insert_desc h rows) (h ∷ rows)
insert_desc-perm h [] = Perm.refl (h ∷ [])
insert_desc-perm h (r ∷ rs) = elim (Bool-cases (leb r.version h.version)) [
  | inl k ↦ rw k (Perm.refl (h ∷ (r ∷ rs)))
  | inr k ↦ rw k (Perm.trans (Perm.cons r (insert_desc-perm h rs)) (Perm.swap h r rs))
]

pub sort_desc-perm : (rows : List ItemHistory) → Perm (sort_desc rows) rows
sort_desc-perm [] = Perm.refl []
sort_desc-perm (h ∷ hs) =
    Perm.trans (insert_desc-perm h (sort_desc hs)) (Perm.cons h (sort_desc-perm hs))

pub take-drop : (k : ℕ) (rows : List ItemHistory) → take k rows ++ drop k rows ≡ rows
take-drop zero rows = refl
take-drop (suc k) [] = refl
take-drop (suc k) (r ∷ rs) = ap (λ x. r ∷ x) (take-drop k rs)

All-drop :
    (P : ItemHistory → Type 0) (k : ℕ) (rows : List ItemHistory) → All P rows → All P (drop k rows)
All-drop P zero rows ps = ps
All-drop P (suc k) [] ps = tt
All-drop P (suc k) (r ∷ rs) ps = All-drop P k rs ps.1

-- No row of the second list is newer than one of the first.
abbrev pub Newer : List ItemHistory → List ItemHistory → Type 0
Newer newest rest = All (λ h. All (λ r. r.version ≤ h.version) rest) newest

pub take-Newer :
    (k : ℕ) (rows : List ItemHistory) → Descending rows → Newer (take k rows) (drop k rows)
take-Newer zero rows d = tt
take-Newer (suc k) [] d = tt
take-Newer (suc k) (r ∷ rs) d =
    (All-drop (λ x. x.version ≤ r.version) k rs d.0, take-Newer k rs d.1)
