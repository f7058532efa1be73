-- ===== src/Sync/Shared/Sealed.antt =====
-- crates/zann-server/src/domains/sync/service.rs: a shared push is a push of changes that the server
-- has encrypted, each under the key of the vault and for its own item.
use zann.Base.{
  ℕ, suc, ◌≡◌, ◌⊎◌, inl, inr, refl, true, false, Bool-cases, none, some, Option-cases, arith, List,
  [], ◌∷◌, codes, Result, ok, err, Result-cases, if◌then◌else◌,
}
use zann.Errors.{ServiceError}
use zann.Core.Structs.{Identity, Vault}
use zann.Crypto.Blob.{Bytes}
use zann.Crypto.Envelope.{IsAead, Draws}
use zann.Crypto.RoundTrip.{IsDrawn, payload_round_trip}
use zann.Crypto.Vault.{decrypt_vault_key, encrypt_payload_bytes}
use zann.Sync.Action.{SyncPushChange}
use zann.Sync.Push.{Server, PushFaults, sync_push}
use zann.Sync.Shared.{
  JsonCodec, Keys, SyncSharedPushChange, IsJsonCodec, read_payload, prepare_shared, is_delete,
  require_type, delete_change, seal_change, seal_changes, sync_shared_push,
}

ok-inj : {A : Type 0} (a b : A) → ◌≡◌ {A = Result ServiceError A} (ok a) (ok b) → a ≡ b
ok-inj a b e = cc

module _ {Json : Type 0} (codec : JsonCodec Json) (keys : Keys) (vault : Vault) (smk : Bytes) where
  -- The payload of a change, found again in the encrypted change.
  pub record Opens (change : SyncSharedPushChange Json) (sealed : SyncPushChange) : Type 0 where
    pub payload : Json
    pub bytes : Bytes
    pub vault_key : Bytes
    pub payload_enc : Bytes
    pub asked : change.payload ≡ some payload
    pub written : codec.to_vec payload ≡ some bytes
    pub keyed : decrypt_vault_key keys.cipher smk vault.id vault.vault_key_enc ≡ ok vault_key
    pub stored : sealed.payload_enc ≡ some payload_enc
    pub checked : sealed.checksum ≡ some (keys.payload_checksum payload_enc)
    pub reads : read_payload codec keys vault_key vault.id change.item_id payload_enc ≡ ok payload

  pub record Seals (change : SyncSharedPushChange Json) (sealed : SyncPushChange) : Type 0 where
    pub item_id : sealed.item_id ≡ change.item_id
    pub operation : sealed.operation ≡ change.operation
    pub path : sealed.path ≡ change.path
    pub name : sealed.name ≡ change.name
    pub base_seq : sealed.base_seq ≡ change.base_seq
    pub content :
        ((is_delete change.operation ≡ true)
          × (sealed.payload_enc ≡ none)
          × (sealed.checksum ≡ none))
        ⊎ ((is_delete change.operation ≡ false) × Opens change sealed)

  abbrev pub AllSeal : List (SyncSharedPushChange Json) → List SyncPushChange → Type 0
  AllSeal [] [] = Unit
  AllSeal [] (s ∷ ss) = ⊥
  AllSeal (c ∷ cs) [] = ⊥
  AllSeal (c ∷ cs) (s ∷ ss) = Seals c s × AllSeal cs ss

  module _ (aead : IsAead keys.cipher) (json : IsJsonCodec codec) where
    read_payload-round_trip :
        (draws : Draws) (vault_key : Bytes) (item_id : ℕ) (payload : Json) (bytes enc : Bytes)
        → IsDrawn draws
        → codec.to_vec payload ≡ some bytes
        → encrypt_payload_bytes keys.cipher draws vault_key vault.id item_id bytes ≡ ok enc
        → read_payload codec keys vault_key vault.id item_id enc ≡ ok payload
    unfolding read_payload
    read_payload-round_trip draws vault_key item_id payload bytes enc drawn written e =
        rw
          (
            payload_round_trip keys.cipher draws vault_key vault.id item_id bytes enc aead drawn e,
            json.reads payload bytes written,
          )
          refl

    seal_change-Seals :
        (draws : Draws) (change : SyncSharedPushChange Json) (sealed : SyncPushChange)
        → IsDrawn draws
        → is_delete change.operation ≡ false
        → seal_change codec keys draws vault smk change ≡ ok sealed
        → Seals change sealed
    unfolding seal_change
    seal_change-Seals draws change sealed drawn live e = elim (Option-cases change.payload) [
      | inl n ↦ absurd (ground (arith, e, n))
      | inr (payload, p) ↦ elim (Result-cases (require_type change.type_id)) [
        | inr (x, t) ↦ absurd (ground (arith, e, p, t))
        | inl (type_id, t) ↦ elim (Option-cases (codec.to_vec payload)) [
          | inl n ↦ absurd (ground (arith, e, p, t, n))
          | inr (bytes, b) ↦
              elim (Result-cases (decrypt_vault_key keys.cipher smk vault.id vault.vault_key_enc)) [
                | inr (x, d) ↦ absurd (ground (arith, e, p, t, b, d))
                | inl (vault_key, d) ↦
                    let sealing =
                      encrypt_payload_bytes keys.cipher draws vault_key vault.id change.item_id
                        bytes in
                    elim (Result-cases sealing) [
                      | inr (x, c) ↦ absurd (ground (arith, e, p, t, b, d, c))
                      | inl (enc, c) ↦
                          let same = ok-inj _ sealed (rw (p, t, b, d, c) at e) in
                          record {
                            item_id = rw (← same) refl;
                            operation = rw (← same) refl;
                            path = rw (← same) refl;
                            name = rw (← same) refl;
                            base_seq = rw (← same) refl;
                            content = inr (
                              live,
                              record {
                                payload = payload;
                                bytes = bytes;
                                vault_key = vault_key;
                                payload_enc = enc;
                                asked = p;
                                written = b;
                                keyed = d;
                                stored = rw (← same) refl;
                                checked = rw (← same) refl;
                                reads =
                                    read_payload-round_trip draws vault_key change.item_id payload
                                      bytes enc drawn b c;
                              },
                            );
                          }
                    ]
              ]
        ]
      ]
    ]

    seal_change_or_delete :
        (draws : Draws) (change : SyncSharedPushChange Json) (sealed : SyncPushChange)
        → IsDrawn draws
        → (if is_delete change.operation
            then ok (delete_change codec keys change)
            else seal_change codec keys draws vault smk change)
          ≡ ok sealed
        → Seals change sealed
    seal_change_or_delete draws change sealed drawn e =
        elim (Bool-cases (is_delete change.operation)) [
          | inr live ↦ seal_change-Seals draws change sealed drawn live (rw live at e)
          | inl gone ↦
              let same = ok-inj (delete_change codec keys change) sealed (rw gone at e) in
              record {
                item_id = rw (← same) refl;
                operation = rw (← same) refl;
                path = rw (← same) refl;
                name = rw (← same) refl;
                base_seq = rw (← same) refl;
                content = inl (gone, rw (← same) refl, rw (← same) refl);
              }
        ]

    seal_changes-AllSeal :
        (draws : ℕ → Draws) (i : ℕ) (changes : List (SyncSharedPushChange Json))
        (sealed : List SyncPushChange)
        → ((j : ℕ) → IsDrawn (draws j))
        → seal_changes codec keys draws i vault smk changes ≡ ok sealed
        → AllSeal changes sealed
    unfolding seal_changes
    seal_changes-AllSeal draws i [] [] drawn e = tt
    seal_changes-AllSeal draws i [] (s ∷ ss) drawn e = cc
    seal_changes-AllSeal draws i (c ∷ cs) sealed drawn e =
        let first =
          if is_delete c.operation
          then ok (delete_change codec keys c)
          else seal_change codec keys (draws i) vault smk c in
        elim (Result-cases first) [
          | inr (x, f) ↦ absurd (cc (e, f))
          | inl (s, f) ↦ elim (Result-cases (seal_changes codec keys draws (suc i) vault smk cs)) [
            | inr (x, r) ↦ absurd (cc (e, f, r))
            | inl (ss, r) ↦
                let same : s ∷ ss ≡ sealed = cc (e, f, r) in
                rw (← same) (
                  seal_change_or_delete (draws i) c s (drawn i) f,
                  seal_changes-AllSeal draws (suc i) cs ss drawn r,
                )
          ]
        ]

-- With a cipher and a JSON codec that keep their promises and draws of the right sizes, a shared push
-- either ends with an error and no change to the server, or is the push of changes with the same
-- items, operations, paths, names and numbers, whose payloads have been encrypted: a shared pull
-- reads each back, for its own item under the key of the vault, as the payload that was asked for. A
-- deletion carries no payload.
pub sync_shared_push-Seals :
    {Json : Type 0} (codec : JsonCodec Json) (keys : Keys) (server : Server) (faults : PushFaults)
    (identity : Identity) (vault_id now fresh : ℕ) (draws : ℕ → Draws)
    (changes : List (SyncSharedPushChange Json))
    → IsAead keys.cipher
    → IsJsonCodec codec
    → ((i : ℕ) → IsDrawn (draws i))
    → ((e : ServiceError) × (sync_shared_push codec keys server faults identity vault_id now fresh
            draws changes
          ≡ (err e, server)))
      ⊎ ((vault : Vault) × ((smk : Bytes) × ((sealed : List SyncPushChange) × ((prepare_shared
                    server keys identity vault_id
                    (codes "write")
                    (codes "sync/shared/push")
                  ≡ ok (vault, smk))
                × AllSeal codec keys vault smk changes sealed
                × (sync_shared_push codec keys server faults identity vault_id now fresh draws
                      changes
                    ≡ sync_push server faults identity vault_id now fresh sealed)))))
unfolding sync_shared_push
sync_shared_push-Seals codec keys server faults identity vault_id now fresh draws changes aead json
      drawn =
    let prep =
      prepare_shared server keys identity vault_id (codes "write") (codes "sync/shared/push") in
    elim (Result-cases prep) [
      | inr (x, p) ↦ inl (x, rw p refl)
      | inl ((vault, smk), p) ↦
          elim (Result-cases (seal_changes codec keys draws 0 vault smk changes)) [
            | inr (x, s) ↦ inl (x, rw (p, s) refl)
            | inl (sealed, s) ↦ inr (
              vault,
              (
                smk,
                (
                  sealed,
                  (
                    p,
                    seal_changes-AllSeal codec keys vault smk aead json draws 0 changes sealed drawn
                        s,
                    rw (p, s) refl,
                  ),
                ),
              ),
            )
          ]
    ]
