-- ===== src/Items/Deleted.antt =====
-- crates/zann-server/src/domains/items/service.rs: what a restore can do after a deletion.
use mathlib.Core.Path.{subst}
use zann.Base.{
  [], ℕ, suc, ◌≡◌, sym, ◌∙◌, refl, ap, false, Bool-cases, inl, inr, Text, codes, text_eq, some,
  Option-cases, ok, err, Result, Result-cases, arith, ◌++◌,
}
use zann.Errors.{ServiceError}
use zann.Core.Structs.{Identity, Item, ItemHistory, Vault}
use zann.Auth.Keyed.{text_apart, some-inj}
use zann.Items.Store.{ItemDb, ItemSite, ItemFaults, item_by_id, history_at, next_row}
use zann.Items.Plan.{Fresh, Planned}
use zann.Items.Changes.{writable_item, plan_delete, plan_restore}
use zann.Items.Write.{run_plan, forget, delete_item, restore_item_version}
use zann.Items.Written.{Target, run_plan-Written}
use zann.Items.Updated.{writable_item-row, planned_inj}

-- What a restore found: the item, and an entry of its history with another payload.
record Restorable (db : ItemDb) (item_id version : ℕ) : Type 0 where
  item : Item
  row : item_by_id db item_id ≡ some item
  entry : ItemHistory
  located : history_at db item.id version ≡ some entry
  changes : text_eq entry.checksum item.checksum ≡ false

forget-ok :
    {A : Type 0} (r : Result ServiceError A × ItemDb) (db' : ItemDb)
    → forget r ≡ (ok tt, db')
    → (a : A) × (r ≡ (ok a, db'))
forget-ok (err x, db) db' e = absurd (ground (arith, e))
forget-ok (ok a, db) db' e = (a, ground (arith, e))

module _ (site : ItemSite) (faults : ItemFaults) (fresh : Fresh) (identity : Identity)
    (vault_id : Text) (db : ItemDb) where
  plan_delete-Target :
      (item_id : ℕ) (p : Planned)
      → plan_delete site faults fresh identity vault_id db item_id ≡ ok p
      → (old : Item) × Target db item_id old p × (p.item.checksum ≡ old.checksum)
  unfolding plan_delete
  plan_delete-Target item_id p e =
      elim (Result-cases (writable_item site faults fresh identity vault_id db item_id [])) [
        | inr (x, w) ↦ absurd (ground (arith, e, w))
        | inl ((device_id, (vault, item)), w) ↦
            let row =
              writable_item-row site faults fresh identity vault_id db item_id [] device_id vault
                item w in
            let t =
              subst (λ q. Target db item_id item q × (q.item.checksum ≡ item.checksum))
                (planned_inj _ p (rw w at e))
                (
                  record { row = row.0; in_vault = row.1; same_id = refl; same_version = refl },
                  refl,
                ) in
            (item, t.0, t.1)
      ]

  plan_restore-Restorable :
      (item_id : ℕ) (version_text : Text) (version : ℕ) (p : Planned)
      → plan_restore site faults fresh identity vault_id db item_id version_text version ≡ ok p
      → Restorable db item_id version
  unfolding plan_restore
  plan_restore-Restorable item_id version_text version p e =
      let rest = codes "/versions/" ++ (version_text ++ codes "/restore") in
      elim (Result-cases (writable_item site faults fresh identity vault_id db item_id rest)) [
        | inr (x, w) ↦ absurd (ground (arith, e, w))
        | inl ((device_id, (vault, item)), w) ↦ elim (Bool-cases faults.history_read_fails) [
          | inl f ↦ absurd (ground (arith, e, w, f))
          | inr f ↦ elim (Option-cases (history_at db item.id version)) [
            | inl n ↦ absurd (ground (arith, e, w, f, n))
            | inr (h, l) ↦ elim (Bool-cases (text_eq h.checksum item.checksum)) [
              | inl c ↦ absurd (ground (arith, e, w, f, l, c))
              | inr c ↦ record {
                item = item;
                row =
                    (writable_item-row site faults fresh identity vault_id db item_id rest device_id
                      vault item w).0;
                entry = h;
                located = l;
                changes = c;
              }
            ]
          ]
        ]
      ]

-- A deleted item cannot be restored to the payload that it was deleted with: the deletion leaves the
-- checksum in the row, and a restore to an entry with the same checksum is refused.
pub deleted_payload_not_restorable :
    (site : ItemSite) (faults faults' : ItemFaults) (fresh fresh' : Fresh)
    (identity identity' : Identity) (vault_id vault_id' : Text) (db db' db'' : ItemDb)
    (item_id version : ℕ) (version_text : Text) (old : Item) (entry : ItemHistory)
    (done : Vault × Item)
    → item_by_id db item_id ≡ some old
    → delete_item site faults fresh identity vault_id db item_id ≡ (ok tt, db')
    → history_at db' old.id version ≡ some entry
    → entry.checksum ≡ old.checksum
    → ¬ (
        restore_item_version site faults' fresh' identity' vault_id' db' item_id version_text
          version
        ≡ (ok done, db''))
unfolding delete_item restore_item_version
deleted_payload_not_restorable site faults faults' fresh fresh' identity identity' vault_id
      vault_id' db db' db'' item_id version version_text old entry done located e entry_located same
      restore =
    elim (Result-cases (plan_delete site faults fresh identity vault_id db item_id)) [
      | inr (x, l) ↦ ground (arith, e, l)
      | inl (p, l) ↦
          elim (Result-cases (
            plan_restore site faults' fresh' identity' vault_id' db' item_id version_text
              version)) [
                | inr (x, k) ↦ ground (arith, restore, k)
                | inl (q, k) ↦
                    let t = plan_delete-Target site faults fresh identity vault_id db item_id p l in
                    let r =
                      plan_restore-Restorable site faults' fresh' identity' vault_id' db' item_id
                        version_text version q k in
                    let d = forget-ok (run_plan faults (ok p) db) db' (rw l at e) in
                    let w =
                      (run_plan-Written faults p item_id (suc item_id) t.0 db db' d.0 t.1
                        (omega arith) d.1).1 in
                    let same_old : t.0 ≡ old = some-inj t.0 old (sym t.1.row ∙ located) in
                    let now_there : r.item ≡ next_row p.item =
                      some-inj r.item (next_row p.item) (sym r.row ∙ w.row) in
                    let same_id : r.item.id ≡ old.id =
                      ap (λ (x : Item). x.id) now_there
                      ∙ (t.1.same_id ∙ ap (λ (x : Item). x.id) same_old) in
                    let same_entry : r.entry ≡ entry = some-inj r.entry entry (
                      sym (
                        subst (λ (n : ℕ). history_at db' n version ≡ some r.entry) same_id
                          r.located)
                      ∙ entry_located) in
                    text_apart r.entry.checksum r.item.checksum r.changes (
                      ap (λ (x : ItemHistory). x.checksum) same_entry
                      ∙ (same
                          ∙ (sym (ap (λ (x : Item). x.checksum) same_old)
                              ∙ (sym t.2 ∙ sym (ap (λ (x : Item). x.checksum) now_there)))))
              ]
    ]
