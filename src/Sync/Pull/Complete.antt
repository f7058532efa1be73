-- ===== src/Sync/Pull/Complete.antt =====
-- crates/zann-server/src/domains/sync/service.rs: a client that pulls page after page gets every
-- change of the vault once.
use zann.Base.{
  ℕ, zero, suc, ◌≤◌, ◌<◌, ◌≡◌, refl, ◌∙◌, ap, ℤ, pos, negsuc, true, false, Bool-cases, inl, inr,
  Option, some, List, [], ◌∷◌, ◌++◌, take, drop, keep, length, All, ltb, Text, codes, ok, arith,
}
use zann.Base.Slices.{All-keep, All-take, take-take, longer_drop, length-drop-le, take-whole}
use zann.External.{External}
use zann.Core.Structs.{Identity}
use zann.Core.Enums.ChangeOp.{ChangeOp, as_i32, try_from, ChangeOp-IsCodec}
use zann.Sync.Store.{Tables}
use zann.Sync.Push.{Server, SyncPrep, prepare_sync, encode_cursor, decode_cursor}
use zann.Sync.Pull.{
  SyncPullRow, SyncPullChange, SyncPullResult, PullFaults, sync_pull, select_rows, rows_of_vault,
  pull_changes, pull_change, after, clamp, has_more, or_db_error, can_push,
}
use zann.Sync.Pull.Pages.{last_of, keep-next, Sorted}
use zann.Sync.Pull.Rows.{Distinct, Decodes, rows_of_vault-Sorted, rows_of_vault-Decodes}

-- The base64 and JSON of cursors can be read back.
pub record IsCursorCodec (ext : External) : Type 0 where
  pub base64 : (bytes : List ℕ) → ext.base64_decode (ext.base64_encode bytes) ≡ some bytes
  pub cursor : (seq : ℤ) → ext.cursor_from_slice (ext.cursor_to_vec seq) ≡ some seq

-- A change that a client is shown is that of the row.
abbrev pub Shows : External → Tables → PullFaults → SyncPullRow → SyncPullChange → Type 0
Shows ext t faults row change =
    (op : ChangeOp) × ((row.op ≡ as_i32 op) × (change ≡ pull_change ext t faults row op))

-- Row by row, in order.
abbrev pub AllShow :
    External → Tables → PullFaults → List SyncPullRow → List SyncPullChange → Type 0
AllShow ext t faults [] [] = Unit
AllShow ext t faults [] (c ∷ cs) = ⊥
AllShow ext t faults (r ∷ rs) [] = ⊥
AllShow ext t faults (r ∷ rs) (c ∷ cs) = Shows ext t faults r c × AllShow ext t faults rs cs

module _ (ext : External) (t : Tables) (faults : PullFaults) where
  AllShow-append :
      (k : ℕ) (rows : List SyncPullRow) (page rest : List SyncPullChange)
      → AllShow ext t faults (take k rows) page
      → AllShow ext t faults (drop k rows) rest
      → AllShow ext t faults rows (page ++ rest)
  AllShow-append zero rows [] rest p h = h
  AllShow-append zero rows (c ∷ page) rest p h = absurd p
  AllShow-append (suc k) [] [] rest p h = h
  AllShow-append (suc k) [] (c ∷ page) rest p h = absurd p
  AllShow-append (suc k) (r ∷ rs) [] rest p h = absurd p
  AllShow-append (suc k) (r ∷ rs) (c ∷ page) rest p h = (p.0, AllShow-append k rs page rest p.1 h)

  pull_changes-AllShow :
      (since : ℤ) (rows : List SyncPullRow)
      → All Decodes rows
      → (changes : List SyncPullChange) × ((pull_changes ext t faults since rows
            ≡ ok (changes, last_of since rows))
          × AllShow ext t faults rows changes)
  unfolding pull_changes
  pull_changes-AllShow since [] h = ([], (refl, tt))
  pull_changes-AllShow since (row ∷ rows) h =
      let (op, e) = h.0 in
      let rest = pull_changes-AllShow (pos row.seq) rows h.1 in
      let decoded : try_from row.op ≡ ok op = ap try_from e ∙ ChangeOp-IsCodec.decodes op in
      (
        pull_change ext t faults row op ∷ rest.0,
        (rw (decoded, rest.1.0) refl, ((op, (e, refl)), rest.1.1)),
      )

clamp-pos : (limit : ℤ) → 1 ≤ clamp 500 limit
clamp-pos (pos n) = omega arith
clamp-pos (negsuc n) = omega arith

-- A client that pulls from a cursor, and again from the cursor of each answer, until there is no
-- more; and all the changes that it was given.
pub data Pulls (server : Server) (faults : PullFaults) (identity : Identity) (vault_id : ℕ)
    (limit : ℤ) : Option Text → List SyncPullChange → Type 0 where
  last :
      (cursor : Option Text) (r : SyncPullResult)
      → sync_pull server faults identity vault_id cursor limit ≡ ok r
      → r.has_more ≡ false
      → Pulls server faults identity vault_id limit cursor r.changes
  more :
      (cursor : Option Text) (r : SyncPullResult) (rest : List SyncPullChange)
      → sync_pull server faults identity vault_id cursor limit ≡ ok r
      → r.has_more ≡ true
      → Pulls server faults identity vault_id limit (some r.next_cursor) rest
      → Pulls server faults identity vault_id limit cursor (r.changes ++ rest)

decode_cursor-encode_cursor :
    (ext : External) (seq : ℤ)
    → IsCursorCodec ext
    → decode_cursor ext (some (encode_cursor ext seq)) ≡ ok seq
unfolding decode_cursor encode_cursor
decode_cursor-encode_cursor ext seq h = rw (h.base64 (ext.cursor_to_vec seq), h.cursor seq) refl

module _ (server : Server) (faults : PullFaults) (identity : Identity) (vault_id : ℕ) (limit : ℤ)
    (prep : SyncPrep)
    (prepared : prepare_sync server identity vault_id (codes "read") (codes "sync/pull") ≡ ok prep)
    (readable : faults.rows_fail ≡ false) where
  abbrev pending : ℤ → List SyncPullRow
  pending since = keep (after since) (rows_of_vault server.tables prep.vault.id)

  -- One page.
  sync_pull-page :
      (cursor : Option Text) (since : ℤ)
      → decode_cursor server.ext cursor ≡ ok since
      → (r : SyncPullResult) × ((sync_pull server faults identity vault_id cursor limit ≡ ok r)
          × (r.has_more ≡ ltb 0 (length (drop (clamp 500 limit) (pending since))))
          × (r.next_cursor
              ≡ encode_cursor server.ext (last_of since (take (clamp 500 limit) (pending since))))
          × AllShow server.ext server.tables faults
              (take (clamp 500 limit) (pending since))
              r.changes)
  unfolding sync_pull select_rows
  sync_pull-page cursor since decoded =
      let k = clamp 500 limit in
      let rows = pending since in
      let all =
        All-take Decodes k rows
          (All-keep Decodes (after since) _ (rows_of_vault-Decodes server.tables prep.vault.id)) in
      let read : or_db_error faults.rows_fail (take (suc k) rows) ≡ ok (take (suc k) rows) =
        rw readable refl in
      let pulled = pull_changes-AllShow server.ext server.tables faults since (take k rows) all in
      (
        record {
          changes = pulled.0;
          next_cursor = encode_cursor server.ext (last_of since (take k rows));
          has_more = has_more k (take (suc k) rows);
          push_available = can_push server identity prep.vault.id;
        },
        (
          rw (prepared, decoded, read, take-take k rows, pulled.1.0) refl,
          longer_drop k rows,
          refl,
          pulled.1.1,
        ),
      )

  Pulls-within :
      (codec : IsCursorCodec server.ext)
      (sorted : Sorted (rows_of_vault server.tables prep.vault.id)) (fuel : ℕ)
      (cursor : Option Text) (since : ℤ)
      → decode_cursor server.ext cursor ≡ ok since
      → length (pending since) < fuel
      → (changes : List SyncPullChange) × (Pulls server faults identity vault_id limit cursor
            changes
          × AllShow server.ext server.tables faults (pending since) changes)
  Pulls-within codec sorted zero cursor since decoded h = absurd (omega (arith, h))
  Pulls-within codec sorted (suc fuel) cursor since decoded h =
      let k = clamp 500 limit in
      let rows = pending since in
      let (r, (ran, more_left, next, shown)) = sync_pull-page cursor since decoded in
      elim (Bool-cases (ltb 0 (length (drop k rows)))) [
        | inr e ↦
            let none_left = take-whole k rows e in
            (r.changes, (last cursor r ran (more_left ∙ e), rw none_left at shown))
        | inl e ↦
            let next_seq = last_of since (take k rows) in
            let rest_rows : pending next_seq ≡ drop k rows =
              keep-next since k (rows_of_vault server.tables prep.vault.id) sorted in
            let smaller : length (pending next_seq) < fuel =
              rw rest_rows (ground (arith, e, length-drop-le k rows, clamp-pos limit, h)) in
            let rest =
              Pulls-within codec sorted fuel (some (encode_cursor server.ext next_seq)) next_seq
                (decode_cursor-encode_cursor server.ext next_seq codec) smaller in
            (
              r.changes ++ rest.0,
              (
                more cursor r rest.0 ran (more_left ∙ e) (rw next rest.1.0),
                AllShow-append server.ext server.tables faults k rows r.changes rest.0 shown
                    (rw rest_rows at rest.1.1),
              ),
            )
      ]

-- Pulling page after page from a cursor ends, with each change of the vault after the cursor once,
-- in the order of their numbers and with the item as it is. The identity may pull, the queries of
-- the rows succeed, the tables stay as they are, the numbers of the changes are distinct, and cursors
-- can be read back.
pub sync_pull_complete :
    (server : Server) (faults : PullFaults) (identity : Identity) (vault_id : ℕ) (limit : ℤ)
    (cursor : Option Text) (since : ℤ) (prep : SyncPrep)
    → IsCursorCodec server.ext
    → Distinct server.tables.changes
    → prepare_sync server identity vault_id (codes "read") (codes "sync/pull") ≡ ok prep
    → faults.rows_fail ≡ false
    → decode_cursor server.ext cursor ≡ ok since
    → (changes : List SyncPullChange) × (Pulls server faults identity vault_id limit cursor changes
        × AllShow server.ext server.tables faults
            (keep (after since) (rows_of_vault server.tables prep.vault.id))
            changes)
sync_pull_complete server faults identity vault_id limit cursor since prep codec distinct prepared
      readable decoded =
    Pulls-within server faults identity vault_id limit prep prepared readable codec
      (rows_of_vault-Sorted server.tables prep.vault.id distinct)
      (suc (length (keep (after since) (rows_of_vault server.tables prep.vault.id)))) cursor since
      decoded (omega arith)
