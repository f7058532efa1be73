-- ===== src/Sync/Kept.antt =====
-- From one change to a whole push, crates/zann-server/src/domains/sync/service.rs: a property of the
-- tables that every change keeps is kept by `sync_push`, on every path through it.
use zann.Base.{
  ℕ, suc, ◌≡◌, refl, Bool-cases, inl, inr, Result-cases, List, [], ◌∷◌, Result, ok, err, codes,
  is_empty,
}
use zann.Core.Structs.{Identity}
use zann.Sync.Store.{Tables, Conn}
use zann.Sync.Action.{SyncPushChange, SyncPushConflict, ApplyChangeError}
use zann.Sync.Steps.{Context}
use zann.Sync.Apply.{apply_change}
use zann.Sync.Push.{
  Server, PushFaults, SyncPrep, Progress, start, push_changes, conclude, run_push, prepare_sync,
  sync_push,
}
use zann.Sync.HistoryBound.{WithinLimit, apply_change-Bounded}
use zann.Sync.Triple.{OnOk, Keeps, bind-Keeps, give-Keeps}

module _ (I : Tables → Type 0)
    (each : (ctx : Context) (change : SyncPushChange)
      → Keeps (λ c. I c.tables) (apply_change ctx change)) where
  push_changes-Keeps :
      (ctx : Context) (fresh : ℕ) (p : Progress) (changes : List SyncPushChange)
      → Keeps (λ c. I c.tables) (push_changes ctx fresh p changes)
  unfolding push_changes
  push_changes-Keeps ctx fresh p [] = give-Keeps _
  push_changes-Keeps ctx fresh p (change ∷ changes) =
      bind-Keeps (each _ change) λ r. push_changes-Keeps ctx (suc fresh) _ changes

  conclude-keeps :
      (s : Server) (faults : PushFaults) (vault_id : ℕ)
      (run : Result ApplyChangeError Progress × Conn)
      → I s.tables
      → OnOk (λ _ c. I c.tables) run
      → I (conclude s faults vault_id run).1.tables
  unfolding conclude
  conclude-keeps s faults vault_id (err e, c) h r = elim (Bool-cases faults.rollback_fails) [
    | inl b ↦ rw b h
    | inr b ↦ rw b h
  ]
  conclude-keeps s faults vault_id (ok p, c) h r = go p.conflicts refl
    where
      go :
          (l : List SyncPushConflict)
          → p.conflicts ≡ l
          → I (conclude s faults vault_id (ok p, c)).1.tables
      go [] e = elim (Bool-cases faults.commit_fails) [
        | inl b ↦ rw (e, b, is_empty) h
        | inr b ↦ rw (e, b, is_empty) r
      ]
      go (x ∷ xs) e = elim (Bool-cases faults.rollback_fails) [
        | inl b ↦ rw (e, b, is_empty) h
        | inr b ↦ rw (e, b, is_empty) h
      ]

  run_push-keeps :
      (s : Server) (faults : PushFaults) (identity : Identity) (now fresh : ℕ)
      (changes : List SyncPushChange) (prep : SyncPrep)
      → I s.tables
      → I (run_push s faults identity now fresh changes prep).1.tables
  unfolding run_push conclude
  run_push-keeps s faults identity now fresh changes prep h = elim (Bool-cases faults.begin_fails) [
    | inl b ↦ rw b h
    | inr b ↦ rw b (elim (Bool-cases faults.isolation_fails) [
      | inl i ↦ rw i h
      | inr i ↦ rw i (
          conclude-keeps s faults prep.vault.id _ h
            ((push_changes-Keeps _ fresh start changes).holds _ h))
    ])
  ]

  pub sync_push-keeps :
      (s : Server) (faults : PushFaults) (identity : Identity) (vault_id now fresh : ℕ)
      (changes : List SyncPushChange)
      → I s.tables
      → I (sync_push s faults identity vault_id now fresh changes).1.tables
  unfolding sync_push
  sync_push-keeps s faults identity vault_id now fresh changes h =
      elim (Result-cases (prepare_sync s identity vault_id (codes "write") (codes "sync/push"))) [
        | inl (prep, e) ↦
            rw (e, sync_push) (run_push-keeps s faults identity now fresh changes prep h)
        | inr (x, e) ↦ rw (e, sync_push) h
      ]

-- Where no item has more than `ITEM_HISTORY_LIMIT` entries of history, none has more after a push,
-- also when the pruning fails, which the code only logs.
pub sync_push-WithinLimit :
    (s : Server) (faults : PushFaults) (identity : Identity) (vault_id now fresh : ℕ)
    (changes : List SyncPushChange)
    → WithinLimit s.tables.item_history
    → WithinLimit (sync_push s faults identity vault_id now fresh changes).1.tables.item_history
sync_push-WithinLimit =
    sync_push-keeps (λ t. WithinLimit t.item_history)
      (λ ctx change. apply_change-Bounded ctx change)
