-- ===== src/Items/Edited.antt =====
-- crates/zann-server/src/domains/items/service.rs: an update keeps the identity of the item.
use mathlib.Core.Path.{subst}
use zann.Base.{
  ensure, ◌>>◌, ◌≡◌, ap, refl, ℕ, Bool, true, false, Bool-cases, inl, inr, List, Text, text_eq,
  is_empty, trim, Option, none, some, ok, err, Result, Result-cases, arith,
}
use zann.Errors.{ServiceError}
use zann.Core.Structs.{Identity, Item, Vault}
use zann.Crypto.Blob.{Bytes}
use zann.Sync.Paths.{basename_from_path, replace_basename}
use zann.Sync.Shared.{JsonCodec}
use zann.Items.Scopes.{validate_item_path}
use zann.Items.Store.{ItemDb, ItemSite, ItemFaults}
use zann.Items.Plan.{
  UpdateItemCommand, Fresh, Draft, bind_tags, same_tags, same_bool, given_checksum, seal_payload,
}
use zann.Items.Changes.{
  is_server, set_if, apply_path, apply_name, rename_item, apply_type, apply_tags, apply_favorite,
  apply_payload, with_content, edit,
}

-- The fields of an item that no update touches before it is written.
pub record Same (item new : Item) : Type 0 where
  pub id : new.id ≡ item.id
  pub vault_id : new.vault_id ≡ item.vault_id
  pub row_version : new.row_version ≡ item.row_version
  pub version : new.version ≡ item.version
  pub deleted_at : new.deleted_at ≡ item.deleted_at

-- The fields that stay, as one value.
abbrev Fields : Type 0
Fields = ℕ × ℕ × ℕ × ℕ × Option ℕ

abbrev kept_fields : Item → Fields
kept_fields i = (i.id, i.vault_id, i.row_version, i.version, i.deleted_at)

-- What holds of a success holds of what it equals.
carry :
    (P : Draft → Type 0) (a b : Draft)
    → ◌≡◌ {A = Result ServiceError Draft} (ok a) (ok b)
    → P a
    → P b
carry P a b e h = subst P (inj e) h
  where
    inj : ◌≡◌ {A = Result ServiceError Draft} (ok a) (ok b) → a ≡ b
    inj q = cc

failed : {x : ServiceError} {a : Item} → ◌≡◌ {A = Result ServiceError Item} (err x) (ok a) → ⊥
failed e = cc

-- The last guard of an edit.
last :
    (item new : Item) (d : Draft)
    → (ensure d.updated (ServiceError.bad_request "no_changes") >> ok d.item) ≡ ok new
    → kept_fields d.item ≡ kept_fields item
    → Same item new
last item new d e h = elim (Bool-cases d.updated) [
  | inr k ↦ absurd (ground (arith, e, k))
  | inl k ↦
      let same : kept_fields new ≡ kept_fields item =
        subst (λ i. kept_fields i ≡ kept_fields item) (item_inj (rw k at e)) h in
      record {
        id = ap (λ (i : Fields). i.0) same;
        vault_id = ap (λ (i : Fields). i.1) same;
        row_version = ap (λ (i : Fields). i.2) same;
        version = ap (λ (i : Fields). i.3) same;
        deleted_at = ap (λ (i : Fields). i.4) same;
      }
]
  where
    item_inj : ◌≡◌ {A = Result ServiceError Item} (ok d.item) (ok new) → d.item ≡ new
    item_inj q = cc

module _ (item : Item) where
  abbrev Kept : Draft → Type 0
  Kept d = kept_fields d.item ≡ kept_fields item

  set_if-Same :
      (same : Bool) (new : Item) (d : Draft)
      → kept_fields new ≡ kept_fields item
      → Kept d
      → Kept (set_if same new d)
  set_if-Same true new d h k = k
  set_if-Same false new d h k = h

  apply_path-Same : (o : Option Text) (d d' : Draft) → apply_path o d ≡ ok d' → Kept d → Kept d'
  apply_path-Same none d d' e h = carry Kept d d' e h
  apply_path-Same (some given) d d' e h = elim (Result-cases (validate_item_path given)) [
    | inr (x, v) ↦ absurd (ground (arith, e, v))
    | inl (path, v) ↦ carry Kept _ d' (rw v at e) (set_if-Same (text_eq path d.item.path) _ d h h)
  ]

  apply_name-Same : (o : Option Text) (d d' : Draft) → apply_name o d ≡ ok d' → Kept d → Kept d'
  apply_name-Same none d d' e h = carry Kept d d' e h
  apply_name-Same (some given) d d' e h =
      let path = replace_basename d.item.path (basename_from_path (trim given)) in
      elim (Bool-cases (is_empty (trim given))) [
        | inl v ↦ absurd (ground (arith, e, v))
        | inr v ↦ carry Kept _ d' (rw v at e) (set_if-Same (text_eq path d.item.path) _ d h h)
      ]

  rename_item-Same : (d : Draft) → Kept d → Kept (rename_item d)
  rename_item-Same d h = elim (Bool-cases d.updated) [ inl k ↦ rw k h | inr k ↦ rw k h ]

  apply_type-Same : (o : Option Text) (d d' : Draft) → apply_type o d ≡ ok d' → Kept d → Kept d'
  apply_type-Same none d d' e h = carry Kept d d' e h
  apply_type-Same (some given) d d' e h = elim (Bool-cases (is_empty (trim given))) [
    | inl v ↦ absurd (ground (arith, e, v))
    | inr v ↦
        carry Kept _ d' (rw v at e) (set_if-Same (text_eq (trim given) d.item.type_id) _ d h h)
  ]

  apply_tags-Same : (o : Option (List Text)) (d : Draft) → Kept d → Kept (apply_tags o d)
  apply_tags-Same none d h = h
  apply_tags-Same (some given) d h =
      set_if-Same (same_tags d.item.tags (bind_tags (some given))) _ d h h

  apply_favorite-Same : (o : Option Bool) (d : Draft) → Kept d → Kept (apply_favorite o d)
  apply_favorite-Same none d h = h
  apply_favorite-Same (some given) d h = set_if-Same (same_bool given d.item.favorite) _ d h h

  with_content-Same : (d : Draft) (content : Bytes × Text) → Kept d → Kept (with_content d content)
  with_content-Same d content h = h

module _ (site : ItemSite) (faults : ItemFaults) (fresh : Fresh) (identity : Identity)
    (vault_id : Text) (db : ItemDb) {Json : Type 0} (codec : JsonCodec Json) where
  apply_payload-Same :
      (item : Item) (vault : Vault) (payload : Option Json) (enc : Option Bytes)
      (checksum : Option Text) (d d' : Draft)
      → apply_payload site faults fresh identity vault_id db codec vault payload enc checksum d
        ≡ ok d'
      → Kept item d
      → Kept item d'
  apply_payload-Same item vault (some payload) enc checksum d d' e h =
      elim (Bool-cases (is_server vault.encryption_type)) [
        | inr k ↦ absurd (ground (arith, e, k))
        | inl k ↦
            elim (Result-cases (seal_payload codec site fresh.draws vault d.item.id payload)) [
              | inr (x, v) ↦ absurd (ground (arith, e, k, v))
              | inl (content, v) ↦
                  carry (Kept item) (with_content d content) d' (rw (k, v) at e)
                    (with_content-Same item d content h)
            ]
      ]
  apply_payload-Same item vault none (some enc) checksum d d' e h =
      elim (Result-cases (given_checksum checksum)) [
        | inr (x, v) ↦ absurd (ground (arith, e, v))
        | inl (c, v) ↦
            carry (Kept item) (with_content d (enc, c)) d' (rw v at e)
              (with_content-Same item d (enc, c) h)
      ]
  apply_payload-Same item vault none none (some checksum) d d' e h = cc
  apply_payload-Same item vault none none none d d' e h = carry (Kept item) d d' e h

  pub edit-Same :
      (vault : Vault) (cmd : UpdateItemCommand Json) (item new : Item)
      → edit site faults fresh identity vault_id db codec vault cmd item ≡ ok new
      → Same item new
  unfolding edit
  edit-Same vault cmd item new e =
      let start : Draft = record { item = item; updated = false } in
      elim (Result-cases (apply_path cmd.path start)) [
        | inr (x, a) ↦ absurd (ground (arith, e, a))
        | inl (d₁, a) ↦ elim (Result-cases (apply_name cmd.name d₁)) [
          | inr (x, b) ↦ absurd (ground (arith, e, a, b))
          | inl (d₂, b) ↦ elim (Result-cases (apply_type cmd.type_id (rename_item d₂))) [
            | inr (x, c) ↦ absurd (ground (arith, e, a, b, c))
            | inl (d₃, c) ↦
                let d₄ = apply_favorite cmd.favorite (apply_tags cmd.tags d₃) in
                elim (Result-cases (
                  apply_payload site faults fresh identity vault_id db codec vault cmd.payload
                    cmd.payload_enc cmd.checksum d₄)) [
                      | inr (x, f) ↦ absurd (failed (rw (a, b, c, f) at e))
                      | inl (d₅, f) ↦
                          let h₁ = apply_path-Same item cmd.path start d₁ a refl in
                          let h₂ = apply_name-Same item cmd.name d₁ d₂ b h₁ in
                          let h₃ =
                            apply_type-Same item cmd.type_id (rename_item d₂) d₃ c
                              (rename_item-Same item d₂ h₂) in
                          let h₄ =
                            apply_favorite-Same item cmd.favorite (apply_tags cmd.tags d₃)
                              (apply_tags-Same item cmd.tags d₃ h₃) in
                          let h₅ =
                            apply_payload-Same item vault cmd.payload cmd.payload_enc cmd.checksum
                              d₄ d₅ f h₄ in
                          last item new d₅ (rw (a, b, c, f) at e) h₅
                    ]
          ]
        ]
      ]
