-- ===== src/Crypto/Binding.antt =====
-- crates/zann-crypto/src/vault_crypto.rs: the associated data tell apart what they are made for.
use zann.Base.{
  ℕ, zero, suc, ◌*◌, ◌/◌, ◌%◌, ◌<◌, ◌≡◌, ◌≢◌, ◌↔◌, refl, sym, ◌∙◌, ap, [], ◌∷◌, ◌++◌, codes, length,
  length-append, arith,
}
use zann.Crypto.Blob.{Bytes, byte_at}
use zann.Crypto.Vault.{be_bytes, as_bytes, vault_key_aad, payload_aad, rotation_candidate_aad}

length-be_bytes : (k n : ℕ) → length (be_bytes k n) ≡ k
length-be_bytes zero n = refl
length-be_bytes (suc k) n =
    omega (arith, length-append (be_bytes k (n / 256)) (n % 256 ∷ []), length-be_bytes k (n / 256))

split_equal :
    (xs xs' ys ys' : Bytes)
    → length xs ≡ length xs'
    → xs ++ ys ≡ xs' ++ ys'
    → (xs ≡ xs') × (ys ≡ ys')
split_equal [] [] ys ys' l e = (refl, e)
split_equal [] (x ∷ xs') ys ys' l e = absurd (ground (arith, l))
split_equal (x ∷ xs) [] ys ys' l e = absurd (ground (arith, l))
split_equal (x ∷ xs) (x' ∷ xs') ys ys' l e =
    let rest = split_equal xs xs' ys ys' (omega (arith, l)) (cons_injective e).1 in
    (rw ((cons_injective e).0, rest.0) refl, rest.1)
  where
    cons_injective : {a b : ℕ} {us vs : Bytes} → a ∷ us ≡ b ∷ vs → (a ≡ b) × (us ≡ vs)
    cons_injective e = (cc, cc)

-- The numbers of `k` bytes are below it.
abbrev pub span : ℕ → ℕ
span zero = 1
span (suc k) = 256 * span k

be_bytes_injective : (k m n : ℕ) → m < span k → n < span k → be_bytes k m ≡ be_bytes k n → m ≡ n
be_bytes_injective zero m n hm hn e = omega (arith, hm, hn)
be_bytes_injective (suc k) m n hm hn e =
    let parts =
      split_equal (be_bytes k (m / 256)) (be_bytes k (n / 256)) _ _
        (length-be_bytes k (m / 256) ∙ sym (length-be_bytes k (n / 256))) e in
    let high =
      be_bytes_injective k (m / 256) (n / 256) (omega (arith, hm)) (omega (arith, hn)) parts.0 in
    let low : m % 256 ≡ n % 256 = one_injective parts.1 in omega (arith, high, low)
  where
    one_injective : {a b : ℕ} → a ∷ [] ≡ b ∷ [] → a ≡ b
    one_injective e = cc

-- `Uuid` has 128 bits.
abbrev pub IsUuid : ℕ → Type 0
IsUuid id = id < 340282366920938463463374607431768211456

as_bytes_injective : (m n : ℕ) → IsUuid m → IsUuid n → as_bytes m ≡ as_bytes n → m ≡ n
unfolding as_bytes
as_bytes_injective m n hm hn e = be_bytes_injective 16 m n hm hn e

ids_injective :
    (prefix : Bytes) (v i v' i' : ℕ)
    → (IsUuid v × IsUuid i) × (IsUuid v' × IsUuid i')
    → prefix ++ (as_bytes v ++ as_bytes i) ≡ prefix ++ (as_bytes v' ++ as_bytes i')
    → (v ≡ v') × (i ≡ i')
unfolding as_bytes
ids_injective prefix v i v' i' u e =
    let ids = (split_equal prefix prefix _ _ refl e).1 in
    let parts = split_equal (as_bytes v) (as_bytes v') _ _ (length-as_bytes v v') ids in
    (as_bytes_injective v v' u.0.0 u.1.0 parts.0, as_bytes_injective i i' u.0.1 u.1.1 parts.1)
  where
    length-as_bytes : (m n : ℕ) → length (as_bytes m) ≡ length (as_bytes n)
    length-as_bytes m n = length-be_bytes 16 m ∙ sym (length-be_bytes 16 n)

-- The associated data of a payload, of a rotation candidate and of a vault key determine the vault
-- and the item they are for, and no two of the three kinds share any: a blob made for one place is
-- decrypted under other data in every other place.
pub aad_binding :
    (v i v' i' : ℕ)
    → (IsUuid v × IsUuid i) × (IsUuid v' × IsUuid i')
    → ((payload_aad v i ≡ payload_aad v' i') ↔ ((v ≡ v') × (i ≡ i')))
      × ((rotation_candidate_aad v i ≡ rotation_candidate_aad v' i') ↔ ((v ≡ v') × (i ≡ i')))
      × ((vault_key_aad v ≡ vault_key_aad v') ↔ (v ≡ v'))
      × (payload_aad v i ≢ rotation_candidate_aad v' i')
      × (payload_aad v i ≢ vault_key_aad v')
      × (rotation_candidate_aad v i ≢ vault_key_aad v')
unfolding payload_aad rotation_candidate_aad vault_key_aad
aad_binding v i v' i' u = (
  (ids_injective (codes "zann:payload:v1") v i v' i' u, λ e. rw (e.0, e.1) refl),
  (ids_injective (codes "zann:rotation_candidate:v1") v i v' i' u, λ e. rw (e.0, e.1) refl),
  (
    λ e.
        as_bytes_injective v v' u.0.0 u.1.0
          (split_equal (codes "zann:vault_key:v1") (codes "zann:vault_key:v1") _ _ refl e).1,
    λ e. rw e refl,
  ),
  λ e. differ e (λ n. omega (arith, n)),
  λ e. differ e (λ n. omega (arith, n)),
  λ e. differ e (λ n. omega (arith, n)),
)
  where
    differ : {xs ys : Bytes} → xs ≡ ys → byte_at 5 xs ≢ byte_at 5 ys → ⊥
    differ e n = n (ap (byte_at 5) e)
