-- ===== src/Sync/Pull/Pages.antt =====
-- crates/zann-server/src/domains/sync/service.rs: the pages that a client pulls one after another.
use zann.Base.{
  ℕ, zero, suc, ◌+◌, ◌≤◌, ◌<◌, ◌≡◌, refl, sym, ◌∙◌, ℤ, pos, pos_part, neg_part, true, false,
  Bool-cases, inl, inr, List, [], ◌∷◌, take, drop, keep, All, arith,
}
use zann.Sync.Pull.{SyncPullRow, after}

-- Numbers that ascend, all of them above a bound.
abbrev pub Ascends : ℕ → List SyncPullRow → Type 0
Ascends bound [] = Unit
Ascends bound (r ∷ rs) = (bound < r.seq) × Ascends r.seq rs

abbrev AllAfter : ℤ → List SyncPullRow → Type 0
AllAfter since rows = All (λ r. after since r ≡ true) rows

abbrev pub Sorted : List SyncPullRow → Type 0
Sorted [] = Unit
Sorted (r ∷ rs) = Ascends r.seq rs

pub Ascends-Sorted : (b : ℕ) (rs : List SyncPullRow) → Ascends b rs → Sorted rs
Ascends-Sorted b [] h = tt
Ascends-Sorted b (r ∷ rs) h = h.1

-- The number of the last row of a page.
abbrev pub last_of : ℤ → List SyncPullRow → ℤ
last_of since [] = since
last_of since (r ∷ rs) = last_of (pos r.seq) rs

pub Ascends-lower : (a b : ℕ) (rs : List SyncPullRow) → a ≤ b → Ascends b rs → Ascends a rs
Ascends-lower a b [] h k = tt
Ascends-lower a b (r ∷ rs) h k = (omega (arith, h, k.0), k.1)

Ascends-keep :
    (since : ℤ) (b : ℕ) (rs : List SyncPullRow) → Ascends b rs → Ascends b (keep (after since) rs)
Ascends-keep since b [] h = tt
Ascends-keep since b (r ∷ rs) h = elim (Bool-cases (after since r)) [
  | inl k ↦ rw k (h.0, Ascends-keep since r.seq rs h.1)
  | inr k ↦ rw k (Ascends-lower b r.seq _ (omega (arith, h.0)) (Ascends-keep since r.seq rs h.1))
]

Ascends-last :
    (n k : ℕ) (rs : List SyncPullRow)
    → Ascends n rs
    → (m : ℕ) × ((last_of (pos n) (take k rs) ≡ pos m) × (n ≤ m))
Ascends-last n zero rs h = (n, (refl, omega arith))
Ascends-last n (suc k) [] h = (n, (refl, omega arith))
Ascends-last n (suc k) (r ∷ rs) h =
    let rest = Ascends-last r.seq k rs h.1 in (rest.0, (rest.1.0, omega (arith, h.0, rest.1.1)))

keep-Ascends : (n : ℕ) (rs : List SyncPullRow) → Ascends n rs → keep (after (pos n)) rs ≡ rs
keep-Ascends n [] h = refl
keep-Ascends n (r ∷ rs) h =
    let e : after (pos n) r ≡ true = ground (arith, h.0) in
    let low = Ascends-lower n r.seq rs (omega (arith, h.0)) h.1 in
    rw (e, keep-Ascends n rs low) refl

-- What comes after the last row of a page is the rest.
keep-last :
    (n k : ℕ) (rs : List SyncPullRow)
    → Ascends n rs
    → keep (after (last_of (pos n) (take k rs))) rs ≡ drop k rs
keep-last n zero rs h = keep-Ascends n rs h
keep-last n (suc k) [] h = refl
keep-last n (suc k) (r ∷ rs) h =
    let last = Ascends-last r.seq k rs h.1 in
    let passed : after (last_of (pos r.seq) (take k rs)) r ≡ false =
      rw last.1.0 (ground (arith, last.1.1)) in
    rw passed (keep-last r.seq k rs h.1)

AllAfter-keep : (since : ℤ) (rs : List SyncPullRow) → AllAfter since (keep (after since) rs)
AllAfter-keep since [] = tt
AllAfter-keep since (r ∷ rs) = elim (Bool-cases (after since r)) [
  | inl k ↦ rw k (k, AllAfter-keep since rs)
  | inr k ↦ rw k (AllAfter-keep since rs)
]

Sorted-keep : (since : ℤ) (rs : List SyncPullRow) → Sorted rs → Sorted (keep (after since) rs)
Sorted-keep since [] h = tt
Sorted-keep since (r ∷ rs) h = elim (Bool-cases (after since r)) [
  | inl k ↦ rw k (Ascends-keep since r.seq rs h)
  | inr k ↦ rw k (Ascends-Sorted r.seq _ (Ascends-keep since r.seq rs h))
]

keep-AllAfter : (since : ℤ) (rs : List SyncPullRow) → AllAfter since rs → keep (after since) rs ≡ rs
keep-AllAfter since [] h = refl
keep-AllAfter since (r ∷ rs) h = rw (h.0, keep-AllAfter since rs h.1) refl

keep-page :
    (since : ℤ) (k : ℕ) (rs : List SyncPullRow)
    → Sorted rs
    → AllAfter since rs
    → keep (after (last_of since (take k rs))) rs ≡ drop k rs
keep-page since zero rs h a = keep-AllAfter since rs a
keep-page since (suc k) [] h a = refl
keep-page since (suc k) (r ∷ rs) h a =
    let last = Ascends-last r.seq k rs h in
    let passed : after (last_of (pos r.seq) (take k rs)) r ≡ false =
      rw last.1.0 (ground (arith, last.1.1)) in
    rw passed (keep-last r.seq k rs h)

after_mono :
    (since next : ℤ) (r : SyncPullRow)
    → pos_part since + neg_part next ≤ pos_part next + neg_part since
    → after next r ≡ true
    → after since r ≡ true
after_mono since next r h e = ground arith

last_of-le :
    (since : ℤ) (k : ℕ) (rs : List SyncPullRow)
    → Sorted rs
    → AllAfter since rs
    → (next : ℤ) × ((last_of since (take k rs) ≡ next)
        × (pos_part since + neg_part next ≤ pos_part next + neg_part since))
last_of-le since zero rs h a = (since, (refl, omega arith))
last_of-le since (suc k) [] h a = (since, (refl, omega arith))
last_of-le since (suc k) (r ∷ rs) h a =
    let last = Ascends-last r.seq k rs h in (pos last.0, (last.1.0, ground (arith, last.1.1, a.0)))

keep-keep :
    (since next : ℤ) (rs : List SyncPullRow)
    → pos_part since + neg_part next ≤ pos_part next + neg_part since
    → keep (after next) (keep (after since) rs) ≡ keep (after next) rs
keep-keep since next [] h = refl
keep-keep since next (r ∷ rs) h = elim (Bool-cases (after next r)) [
  | inl k ↦ rw (k, after_mono since next r h k, k, keep-keep since next rs h) refl
  | inr k ↦ elim (Bool-cases (after since r)) [
    | inl j ↦ rw (k, j, k, keep-keep since next rs h) refl
    | inr j ↦ rw (k, j, keep-keep since next rs h) refl
  ]
]

-- After a page the next one begins where it ended.
pub keep-next :
    (since : ℤ) (k : ℕ) (rs : List SyncPullRow)
    → Sorted rs
    → keep (after (last_of since (take k (keep (after since) rs)))) rs
      ≡ drop k (keep (after since) rs)
keep-next since k rs h =
    let sorted = Sorted-keep since rs h in
    let all = AllAfter-keep since rs in
    let last = last_of-le since k (keep (after since) rs) sorted all in
    rw last.1.0 (
      sym (keep-keep since last.0 rs last.1.1)
      ∙ rw (← last.1.0) (keep-page since k (keep (after since) rs) sorted all))
