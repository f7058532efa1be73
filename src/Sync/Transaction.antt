-- ===== src/Sync/Transaction.antt =====
-- What a push does to the server as a whole: all of its changes in order, or none of them.
use zann.Base.{
  ℕ, ◌+◌, ◌≡◌, refl, ◌≢◌, ◌⊎◌, inl, inr, Result-cases, List, [], ◌∷◌, Option, length, is_empty,
  Result, ok, err, Bool-cases, codes,
}
use zann.Errors.{ServiceError}
use zann.Core.Structs.{Identity}
use zann.Sync.Store.{Conn}
use zann.Sync.Action.{SyncPushChange, SyncPushConflict, ApplyChangeError}
use zann.Sync.Steps.{Context}
use zann.Sync.Push.{
  Server, PushFaults, SyncPrep, SyncPushResult, Progress, start, push_changes, conclude, run_push,
  prepare_sync, sync_push,
}
use zann.Sync.Triple.{OnOk}
use zann.Sync.Logged.{numbers, ids_of, seqs_of, Grown, LoggedIfClean, push_changes-Logged}

-- What a push may do to the server: nothing (but for numbers drawn from the sequence), or all of it.
abbrev pub Untouched : Server → Server → Type 0
Untouched s s' = (s'.tables ≡ s.tables) × (s'.policies ≡ s.policies) × (s'.access_db ≡ s.access_db)

-- What one push is given, and its connection at the start of the transaction.
abbrev pub push_context : Server → Identity → ℕ → ℕ → SyncPrep → Context
push_context s identity now fresh prep = record {
  ext = s.ext;
  identity = identity;
  device_id = prep.device_id;
  vault_id = prep.vault.id;
  now = now;
  history_id = fresh;
}

abbrev pub opened : Server → Option ℕ → Conn
opened s budget = record { tables = s.tables; next_seq = s.next_seq; budget = budget }

pub record Applied (ctx : Context) (budget : Option ℕ) (s : Server) (changes : List SyncPushChange)
    (r : SyncPushResult) (s' : Server) : Type 0 where
  pub no_conflicts : r.conflicts ≡ []
  pub every_change : r.applied_ids ≡ ids_of s.ext changes
  pub numbered : seqs_of r.applied_changes ≡ numbers s.next_seq changes
  pub advanced : s'.next_seq ≡ s.next_seq + length changes
  pub logged : Grown ctx s.next_seq s.tables.changes changes s'.tables.changes
  pub progress : Progress
  pub conn : Conn
  pub run : push_changes ctx ctx.history_id start changes (opened s budget) ≡ (ok progress, conn)
  pub committed : s'.tables ≡ conn.tables

abbrev pub AllOrNothing :
    Server
    → Option ℕ
    → Identity
    → ℕ
    → ℕ
    → ℕ
    → List SyncPushChange
    → Result ServiceError SyncPushResult × Server
    → Type 0
AllOrNothing s budget identity vault_id now fresh changes (err e, s') = Untouched s s'
AllOrNothing s budget identity vault_id now fresh changes (ok r, s') =
    (Untouched s s' × (r.applied_ids ≡ []) × (r.applied_changes ≡ []) × (r.conflicts ≢ []))
    ⊎ ((prep : SyncPrep) × ((prepare_sync s identity vault_id (codes "write") (codes "sync/push")
            ≡ ok prep)
          × Applied (push_context s identity now fresh prep) budget s changes r s'))

module _ (s : Server) (faults : PushFaults) (identity : Identity) (vault_id now fresh : ℕ)
    (changes : List SyncPushChange) (prep : SyncPrep)
    (prepared : prepare_sync s identity vault_id (codes "write") (codes "sync/push")
      ≡ ok prep) where
  conclude-AllOrNothing :
      (run : Result ApplyChangeError Progress × Conn)
      → push_changes
          (push_context s identity now fresh prep)
          fresh
          start
          changes
          (opened s faults.budget)
        ≡ run
      → OnOk
          (LoggedIfClean
            (push_context s identity now fresh prep)
            s.next_seq
            s.tables.changes
            start
            changes)
          run
      → AllOrNothing s faults.budget identity vault_id now fresh changes
          (conclude s faults prep.vault.id run)
  unfolding conclude
  conclude-AllOrNothing (err e, c) ran h = elim (Bool-cases faults.rollback_fails) [
    | inl b ↦ rw b (refl, refl, refl)
    | inr b ↦ rw b (refl, refl, refl)
  ]
  conclude-AllOrNothing (ok p, c) ran h = go p.conflicts refl
    where
      go :
          (l : List SyncPushConflict)
          → p.conflicts ≡ l
          → AllOrNothing s faults.budget identity vault_id now fresh changes
              (conclude s faults prep.vault.id (ok p, c))
      go [] e = elim (Bool-cases faults.commit_fails) [
        | inl b ↦ rw (e, b, is_empty) (refl, refl, refl)
        | inr b ↦
            let l = h e in
            rw (e, b, is_empty)
              (inr (
                prep,
                (
                  prepared,
                  record {
                    no_conflicts = refl;
                    every_change = l.ids;
                    numbered = l.seqs;
                    advanced = l.next;
                    logged = l.grown;
                    progress = p;
                    conn = c;
                    run = ran;
                    committed = refl;
                  },
                ),
              ))
      ]
      go (x ∷ xs) e = elim (Bool-cases faults.rollback_fails) [
        | inl b ↦ rw (e, b, is_empty) (refl, refl, refl)
        | inr b ↦ rw (e, b, is_empty) (inl ((refl, refl, refl), refl, refl, λ n. cc))
      ]

  run_push-AllOrNothing :
      AllOrNothing s faults.budget identity vault_id now fresh changes
        (run_push s faults identity now fresh changes prep)
  unfolding run_push conclude
  run_push-AllOrNothing =
      let ctx = push_context s identity now fresh prep in
      elim (Bool-cases faults.begin_fails) [
        | inl b ↦ rw b (refl, refl, refl)
        | inr b ↦ rw b (elim (Bool-cases faults.isolation_fails) [
          | inl i ↦ rw i (refl, refl, refl)
          | inr i ↦ rw i (
              conclude-AllOrNothing _ refl (
                (push_changes-Logged ctx s.next_seq fresh s.tables.changes start changes).holds
                  (opened s faults.budget) (refl, refl)))
        ])
      ]

-- A push, whatever fails on the way, either leaves the tables, the policies and the access tables of
-- the server as they were, and then reports an error or a conflict and no applied change. Or it
-- reports no conflict and every change of the request in order; the change log has got one entry for
-- each of them in that order, of the vault, the item, the operation and the device, under the
-- consecutive numbers that follow the last one drawn and that are reported; and the tables of the
-- server are those that the loop over all changes has left.
pub sync_push-AllOrNothing :
    (s : Server) (faults : PushFaults) (identity : Identity) (vault_id now fresh : ℕ)
    (changes : List SyncPushChange)
    → AllOrNothing s faults.budget identity vault_id now fresh changes
        (sync_push s faults identity vault_id now fresh changes)
unfolding sync_push
sync_push-AllOrNothing s faults identity vault_id now fresh changes =
    elim (Result-cases (prepare_sync s identity vault_id (codes "write") (codes "sync/push"))) [
      | inl (prep, e) ↦
          rw (e, sync_push)
            (run_push-AllOrNothing s faults identity vault_id now fresh changes prep e)
      | inr (x, e) ↦ rw (e, sync_push) (refl, refl, refl)
    ]
