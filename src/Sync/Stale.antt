-- ===== src/Sync/Stale.antt =====
-- crates/zann-server/src/domains/sync/http/v1/handlers/push_apply.rs: changes that are refused
-- since they are stale.
use zann.Base.{
  ℕ, ◌<◌, ◌≡◌, ◌≢◌, refl, Bool, true, Bool-cases, inl, inr, Option, none, some, Option-cases, List,
  [], ◌∷◌, any, ltb, max, pos, Result, ok, err, ◌&&◌, ◌==◌, zero, suc, arith,
}
use zann.Core.Structs.{Change}
use zann.Sync.Store.{Tables, Conn, execute, select, max_seq}
use zann.Sync.Action.{
  SyncPushChange, ApplyChangeError, ApplyChangeResult, applied, conflict, ◌>>=◌, give, must,
  attempt,
}
use zann.Sync.Steps.{Context, conflict_of}
use zann.Sync.Apply.{apply_change, stale_conflict, is_stale}

-- A connection that does not fail.
abbrev pub healthy : Tables → ℕ → Conn
healthy t n = record { tables = t; next_seq = n; budget = none }

-- The last number that the log gives to an item of the vault.
abbrev pub server_seq_of : Context → ℕ → Tables → Option ℕ
server_seq_of ctx item_id t =
    max_seq (λ c. c.vault_id == ctx.vault_id && c.item_id == item_id) t.changes

-- Since the number `base` the log has got an entry for the item in the vault of the push.
abbrev pub passed_since : Context → ℕ → ℕ → Tables → Bool
passed_since ctx item_id base t =
    any (λ c. (c.vault_id == ctx.vault_id && c.item_id == item_id) && ltb base c.seq) t.changes

-- Nothing is written, and no number is drawn: the change fails with the connection, or it ends in a
-- conflict with the greatest number that the log has for the item, which is above the base.
abbrev pub Refused :
    Context → SyncPushChange → ℕ → Conn → Result ApplyChangeError ApplyChangeResult × Conn → Type 0
Refused ctx change base c (err e, c') =
    (c'.tables ≡ c.tables) × (c'.next_seq ≡ c.next_seq) × (c.budget ≢ none)
Refused ctx change base c (ok (applied id a), c') = ⊥
Refused ctx change base c (ok (conflict x), c') =
    (c'.tables ≡ c.tables)
    × (c'.next_seq ≡ c.next_seq)
    × (x.item_id ≡ ctx.ext.uuid_text change.item_id)
    × (x.reason ≡ "concurrent_modification")
    × (base < x.server_seq)
    × (server_seq_of ctx change.item_id c.tables ≡ some x.server_seq)

max_seq-above :
    (p : Change → Bool) (base : ℕ) (changes : List Change)
    → any (λ c. p c && ltb base c.seq) changes ≡ true
    → (m : ℕ) × ((max_seq p changes ≡ some m) × (base < m))
max_seq-above p base [] h = absurd (ground (arith, h))
max_seq-above p base (c ∷ cs) h = elim (Bool-cases (p c)) [
  | inr k ↦
      let rest = max_seq-above p base cs (ground (arith, h, k)) in
      (rest.0, (rw k rest.1.0, rest.1.1))
  | inl k ↦ elim (Option-cases (max_seq p cs)) [
    | inl n ↦ elim (Bool-cases (ltb base c.seq)) [
      | inl l ↦ (c.seq, (rw (k, n) refl, ground (arith, l)))
      | inr l ↦
          let rest = max_seq-above p base cs (ground (arith, h, k, l)) in
          absurd (ground (arith, n, rest.1.0))
    ]
    | inr (m, n) ↦ elim (Bool-cases (ltb base c.seq)) [
      | inl l ↦ (max c.seq m, (rw (k, n) refl, ground (arith, l)))
      | inr l ↦
          let rest = max_seq-above p base cs (ground (arith, h, k, l)) in
          let same : m ≡ rest.0 = ground (arith, n, rest.1.0) in
          (max c.seq m, (rw (k, n) refl, omega (arith, same, rest.1.1)))
    ]
  ]
]

-- A change that rests on a number of the log above 0, where the log has a later entry for the item in
-- the vault, writes nothing, whatever the operation and whenever the connection fails: it ends in the
-- conflict `concurrent_modification` with the greatest number that the log has for the item, or with an
-- error where the connection fails.
pub apply_change-stale :
    (ctx : Context) (change : SyncPushChange) (base : ℕ) (c : Conn)
    → change.base_seq ≡ some (pos base)
    → 0 < base
    → passed_since ctx change.item_id base c.tables ≡ true
    → Refused ctx change base c (apply_change ctx change c)
unfolding apply_change is_stale stale_conflict ◌>>=◌ give must attempt select execute conflict_of
apply_change-stale ctx change base c given positive passed =
    let newest =
      max_seq-above (λ e. e.vault_id == ctx.vault_id && e.item_id == change.item_id) base
        c.tables.changes passed in
    let stale : is_stale ctx (pos base) (some newest.0) ≡ true =
      ground (arith, newest.1.1, positive) in
    elim (Option-cases c.budget) [
      | inl b ↦ rw (b, given, newest.1.0, stale) (refl, refl, refl, refl, newest.1.1, newest.1.0)
      | inr (zero, b) ↦ rw b (refl, refl, λ q. cc)
      | inr (suc zero, b) ↦
          rw (b, given, newest.1.0, stale) (refl, refl, refl, refl, newest.1.1, newest.1.0)
      | inr (suc (suc n), b) ↦
          rw (b, given, newest.1.0, stale) (refl, refl, refl, refl, newest.1.1, newest.1.0)
    ]
