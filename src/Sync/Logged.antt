-- ===== src/Sync/Logged.antt =====
-- crates/zann-server/src/domains/sync/http/v1/helpers.rs and service.rs: what the loop of a push over its
-- changes has answered and logged.
use mathlib.Core.List.{append-nil, append_assoc, map-append}
use zann.Base.{ℕ, suc, ◌+◌, ◌≡◌, sym, ◌∙◌, List, [], ◌∷◌, ◌++◌, map, Text, length, arith}
use zann.External.{External}
use zann.Core.Structs.{Change}
use zann.Sync.Store.{Conn}
use zann.Sync.Action.{SyncPushChange, SyncAppliedChange, SyncPushConflict, applied, conflict}
use zann.Sync.Steps.{Context}
use zann.Sync.Push.{Progress, note, push_changes}
use zann.Sync.Sequence.{IsEntry, At, apply_change-Advances}
use zann.Sync.Triple.{Triple, bind-Triple, give-Triple, OnOk-map}

-- Consecutive numbers from `n`, one for each change.
abbrev pub numbers : ℕ → List SyncPushChange → List ℕ
numbers n [] = []
numbers n (change ∷ changes) = n ∷ numbers (suc n) changes

abbrev pub ids_of : External → List SyncPushChange → List Text
ids_of ext = map (λ change. ext.uuid_text change.item_id)

abbrev pub seqs_of : List SyncAppliedChange → List ℕ
seqs_of = map (λ a. a.seq)

-- The log after it has got an entry for each change, in their order, with numbers from `n`.
abbrev pub Grown : Context → ℕ → List Change → List SyncPushChange → List Change → Type 0
Grown ctx n log [] log' = log' ≡ log
Grown ctx n log (change ∷ changes) log' =
    (entry : Change) × (IsEntry ctx n change entry × Grown ctx (suc n) (entry ∷ log) changes log')

-- A run of the loop without conflicts has applied every change, under consecutive numbers.
pub record Logged (ctx : Context) (n : ℕ) (log : List Change) (p : Progress)
    (changes : List SyncPushChange) (p' : Progress) (c : Conn) : Type 0 where
  pub clean_before : p.conflicts ≡ []
  pub ids : p'.applied_ids ≡ p.applied_ids ++ ids_of ctx.ext changes
  pub seqs : seqs_of p'.applied_changes ≡ seqs_of p.applied_changes ++ numbers n changes
  pub next : c.next_seq ≡ n + length changes
  pub grown : Grown ctx n log changes c.tables.changes

abbrev pub LoggedIfClean :
    Context → ℕ → List Change → Progress → List SyncPushChange → Progress → Conn → Type 0
LoggedIfClean ctx n log p changes p' c = p'.conflicts ≡ [] → Logged ctx n log p changes p' c

snoc≢nil {ℓ} : {A : Type ℓ} (xs : List A) (x : A) → xs ++ x ∷ [] ≡ [] → ⊥
snoc≢nil [] x e = cc
snoc≢nil (y ∷ ys) x e = cc

module _ (ctx : Context) where
  applied-Logged :
      (n : ℕ) (log : List Change) (p : Progress) (change : SyncPushChange)
      (changes : List SyncPushChange) (item_id : ℕ) (a : SyncAppliedChange) (entry : Change)
      (p' : Progress) (c : Conn)
      → item_id ≡ change.item_id
      → a.seq ≡ n
      → IsEntry ctx n change entry
      → LoggedIfClean ctx (suc n) (entry ∷ log) (note ctx.ext p (applied item_id a)) changes p' c
      → LoggedIfClean ctx n log p (change ∷ changes) p' c
  applied-Logged n log p change changes item_id a entry p' c same number is later clean =
      let l = later clean in
      record {
        clean_before = l.clean_before;
        ids = l.ids ∙ rw same (append_assoc p.applied_ids _ _);
        seqs =
            l.seqs
            ∙ rw (map-append (λ (b : SyncAppliedChange). b.seq) p.applied_changes, number)
                (append_assoc (seqs_of p.applied_changes) _ _);
        next = omega (arith, l.next);
        grown = (entry, (is, l.grown));
      }

  conflict-Logged :
      (n m : ℕ) (log : List Change) (p : Progress) (changes all : List SyncPushChange)
      (x : SyncPushConflict) (p' : Progress) (c : Conn)
      → LoggedIfClean ctx m log (note ctx.ext p (conflict x)) changes p' c
      → LoggedIfClean ctx n log p all p' c
  conflict-Logged n m log p changes all x p' c later clean =
      absurd (snoc≢nil p.conflicts x (later clean).clean_before)

pub push_changes-Logged :
    (ctx : Context) (n fresh : ℕ) (log : List Change) (p : Progress) (changes : List SyncPushChange)
    → Triple (At n log) (push_changes ctx fresh p changes) (LoggedIfClean ctx n log p changes)
unfolding push_changes
push_changes-Logged ctx n fresh log p [] = give-Triple _ λ c h clean. record {
  clean_before = clean;
  ids = sym (append-nil p.applied_ids);
  seqs = sym (append-nil (seqs_of p.applied_changes));
  next = omega (arith, h.0);
  grown = h.1;
}
push_changes-Logged ctx n fresh log p (change ∷ changes) =
    bind-Triple (apply_change-Advances n log (record ctx { history_id = fresh }) change) elim [
      | applied item_id a ↦ record {
        holds = λ c h.
            OnOk-map _ _
              (push_changes ctx (suc fresh) (note ctx.ext p (applied item_id a)) changes c)
              (λ p' c' later.
                applied-Logged ctx n log p change changes item_id a h.3.0 p' c' h.0 h.1 h.3.1.0
                  later)
              ((push_changes-Logged ctx (suc n) (suc fresh) (h.3.0 ∷ log)
                  (note ctx.ext p (applied item_id a)) changes).holds
                c (h.2, h.3.1.1));
      }
      | conflict x ↦ record {
        holds = λ c h.
            OnOk-map _ _ (push_changes ctx (suc fresh) (note ctx.ext p (conflict x)) changes c)
              (λ p' c' later.
                conflict-Logged ctx n n log p changes (change ∷ changes) x p' c' later)
              ((push_changes-Logged ctx n (suc fresh) log (note ctx.ext p (conflict x))
                  changes).holds
                c h);
      }
    ]
