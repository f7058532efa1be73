-- ===== src/Items/Updated.antt =====
-- crates/zann-server/src/domains/items/service.rs: the rows that updates, deletions and restores write.
use mathlib.Core.Path.{subst}
use zann.Base.{
  ◌≢◌, ℕ, ◌+◌, ◌≡◌, ◌≢◌, ◌∙◌, refl, ap, Bool-cases, inl, inr, [], Text, codes, some, Option-cases,
  ok, Result, Result-cases, arith, ◌==◌, unwrap_or,
}
use zann.Errors.{ServiceError}
use zann.Core.Structs.{Identity, Item, Vault}
use zann.Sync.Shared.{JsonCodec}
use zann.Items.Store.{
  ItemDb, ItemSite, ItemFaults, item_by_id, item_in_vault, authorize_vault_access,
}
use zann.Items.Plan.{UpdateItemCommand, Fresh, Planned}
use zann.Items.Changes.{resource_of, writable_item, edit, plan_update}
use zann.Items.Write.{update_item}
use zann.Items.Edited.{edit-Same}
use zann.Items.Written.{Target, Written, run_plan-Written}

pub item_in_vault-row :
    (faults : ItemFaults) (db : ItemDb) (item_id : ℕ) (vault : Vault) (item : Item)
    → item_in_vault faults db item_id vault ≡ ok item
    → (item_by_id db item_id ≡ some item) × (item.vault_id ≡ vault.id)
unfolding item_in_vault
item_in_vault-row faults db item_id vault item e = elim (Bool-cases faults.item_read_fails) [
  | inl f ↦ absurd (ground (arith, e, f))
  | inr f ↦ elim (Option-cases (item_by_id db item_id)) [
    | inl n ↦ absurd (ground (arith, e, f, n))
    | inr (i, l) ↦ elim (Bool-cases (i.vault_id == vault.id)) [
      | inr k ↦ absurd (ground (arith, e, f, l, k))
      | inl k ↦
          let same : i ≡ item = ground (arith, e, f, l, k) in
          (l ∙ ap some same, subst (λ (x : Item). x.vault_id ≡ vault.id) same (ground (arith, k)))
    ]
  ]
]

pub planned_inj : (p q : Planned) → ◌≡◌ {A = Result ServiceError Planned} (ok p) (ok q) → p ≡ q
planned_inj p q e = cc

module _ (site : ItemSite) (faults : ItemFaults) (fresh : Fresh) (identity : Identity)
    (vault_id : Text) (db : ItemDb) where
  -- What a request to write has found.
  pub writable_item-row :
      (item_id : ℕ) (rest : Text) (device_id : ℕ) (vault : Vault) (item : Item)
      → writable_item site faults fresh identity vault_id db item_id rest
        ≡ ok (device_id, (vault, item))
      → (item_by_id db item_id ≡ some item) × (item.vault_id ≡ vault.id)
  writable_item-row item_id rest device_id vault item e = elim (Option-cases identity.device_id) [
    | inl n ↦ absurd (ground (arith, e, n))
    | inr (d, l) ↦
        let resource = resource_of site faults fresh identity vault_id db item_id rest in
        elim (Result-cases
          (authorize_vault_access site identity vault_id (codes "write") resource)) [
            | inr (x, a) ↦ absurd (ground (arith, e, l, a))
            | inl (v, a) ↦ elim (Result-cases (item_in_vault faults db item_id v)) [
              | inr (x, i) ↦ absurd (ground (arith, e, l, a, i))
              | inl (found, i) ↦
                  let same_vault : v ≡ vault = ground (arith, e, l, a, i) in
                  let same_item : found ≡ item = ground (arith, e, l, a, i) in
                  subst (λ x. (item_by_id db item_id ≡ some item) × (item.vault_id ≡ x.id))
                    same_vault
                    (subst (λ x. (item_by_id db item_id ≡ some x) × (x.vault_id ≡ v.id)) same_item
                      (item_in_vault-row faults db item_id v found i))
            ]
          ]
  ]

  module _ {Json : Type 0} (codec : JsonCodec Json) where
    plan_update-Target :
        (item_id : ℕ) (cmd : UpdateItemCommand Json) (p : Planned)
        → plan_update site faults fresh identity vault_id db codec item_id cmd ≡ ok p
        → (old : Item) × Target db item_id old p
          × (unwrap_or cmd.base_version old.version ≡ old.version)
          × (p.item.version ≡ unwrap_or cmd.version (old.version + 1))
    unfolding plan_update
    plan_update-Target item_id cmd p e =
        elim (Result-cases (writable_item site faults fresh identity vault_id db item_id [])) [
          | inr (x, w) ↦ absurd (ground (arith, e, w))
          | inl ((device_id, (vault, item)), w) ↦
              elim (Bool-cases (unwrap_or cmd.base_version item.version == item.version)) [
                | inr b ↦ absurd (ground (arith, e, w, b))
                | inl b ↦
                    elim (Result-cases
                      (edit site faults fresh identity vault_id db codec vault cmd item)) [
                        | inr (x, c) ↦ absurd (ground (arith, e, w, b, c))
                        | inl (new, c) ↦
                            let row = writable_item-row item_id [] device_id vault item w in
                            let kept =
                              edit-Same site faults fresh identity vault_id db codec vault cmd item
                                new c in
                            let t =
                              subst
                                (λ q.
                                  Target db item_id item q
                                  × (unwrap_or cmd.base_version item.version ≡ item.version)
                                  × (q.item.version ≡ unwrap_or cmd.version (item.version + 1)))
                                (planned_inj _ p (rw (w, b, c) at e))
                                (
                                  record {
                                    row = row.0;
                                    in_vault = row.1;
                                    same_id = kept.id;
                                    same_version = kept.row_version;
                                  },
                                  ground (arith, b),
                                  refl,
                                ) in
                            (item, t.0, t.1, t.2)
                      ]
              ]
        ]

-- An update that succeeds rests on the version that the request names, if it names one, and writes the
-- item that it returns: under its id, in the vault of the request, at the next version or the one that
-- the request asks for, with an entry in the change log unless that statement failed; every other item
-- stays.
pub update_item_writes :
    {Json : Type 0} (codec : JsonCodec Json) (site : ItemSite) (faults : ItemFaults) (fresh : Fresh)
    (identity : Identity) (vault_id : Text) (db db' : ItemDb) (item_id other : ℕ)
    (cmd : UpdateItemCommand Json) (done : Vault × Item)
    → other ≢ item_id
    → update_item site faults fresh identity vault_id db codec item_id cmd ≡ (ok done, db')
    → (old : Item) × (p : Planned) × (done ≡ (p.vault, p.item))
      × (unwrap_or cmd.base_version old.version ≡ old.version)
      × (p.item.version ≡ unwrap_or cmd.version (old.version + 1))
      × Written faults p old item_id other db db'
unfolding update_item
update_item_writes codec site faults fresh identity vault_id db db' item_id other cmd done apart e =
    elim (Result-cases (plan_update site faults fresh identity vault_id db codec item_id cmd)) [
      | inr (x, l) ↦ absurd (ground (arith, e, l))
      | inl (p, l) ↦
          let t = plan_update-Target site faults fresh identity vault_id db codec item_id cmd p l in
          let w = run_plan-Written faults p item_id other t.0 db db' done t.1 apart (rw l at e) in
          (t.0, p, w.0, t.2, t.3, w.1)
    ]
