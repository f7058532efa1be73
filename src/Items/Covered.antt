-- ===== src/Items/Covered.antt =====
-- crates/zann-server/src/domains/items/service.rs: scopes that cover a prefix cover the paths under it.
use mathlib.Core.Path.{subst}
use zann.Base.{
  ℕ, ◌≡◌, refl, Bool, true, false, Bool-cases, inl, inr, ◌||◌, ◌&&◌, not, List, [], ◌∷◌, ◌++◌, Text,
  codes, text_eq, text_eq→eq, Option, none, some, Option-cases, ok, Result-cases, arith, ◌==◌, All,
  any, all, keep, is_empty, starts_with, trim, trim_matches,
}
use zann.External.{External}
use zann.Core.Structs.{Item, Vault, ServiceAccount}
use zann.Access.Scope.{ScopeRule, parse_scope, vault_matches_scope}
use zann.Access.Vault.{AccessDb, is_none, get_account}
use zann.Sync.Paths.{is_slash}
use zann.Items.Scopes.{
  prefix_match, scope_allows_action, scope_matches_path, scope_matches_prefix, covers,
  matched_rules, rules_allow, permits_path, service_account_allows_prefix,
}

both : (p q : Bool) → (p && q) ≡ true → (p ≡ true) × (q ≡ true)
both true q h = (refl, h)
both false q h = cc

or_right : (p q : Bool) → q ≡ true → (p || q) ≡ true
or_right true q h = refl
or_right false q h = h

starts_with_longer :
    (a b c d : Text)
    → starts_with a b ≡ true
    → starts_with (b ++ c) d ≡ true
    → starts_with a d ≡ true
unfolding starts_with
starts_with_longer [] b c d h k = refl
starts_with_longer (x ∷ a) [] c d h k = cc
starts_with_longer (x ∷ a) (y ∷ b) c [] h k = cc
starts_with_longer (x ∷ a) (y ∷ b) c (z ∷ d) h k =
    let head : ((x == y) ≡ true) × (starts_with a b ≡ true) = both (x == y) (starts_with a b) h in
    let next : ((y == z) ≡ true) × (starts_with (b ++ c) d ≡ true) =
      both (y == z) (starts_with (b ++ c) d) k in
    let first : (x == z) ≡ true = ground (arith, head.0, next.0) in
    rw first (starts_with_longer a b c d head.1 next.1)

-- A prefix without blanks or slashes at its ends.
abbrev pub IsTidy : Option Text → Type 0
IsTidy none = Unit
IsTidy (some p) = trim_matches is_slash (trim p) ≡ p

pub any-keep : (p : Item → Bool) (xs : List Item) → All (λ i. p i ≡ true) (keep p xs)
any-keep p [] = tt
any-keep p (x ∷ xs) = elim (Bool-cases (p x)) [
  | inl k ↦ rw k (k, any-keep p xs)
  | inr k ↦ rw k (any-keep p xs)
]

prefix_match_trans :
    (scope : Text) (asked path : Text)
    → IsTidy (some asked)
    → prefix_match (some scope) asked ≡ true
    → prefix_match (some asked) path ≡ true
    → prefix_match (some scope) path ≡ true
unfolding prefix_match
prefix_match_trans scope asked path tidy h k =
    let inner = trim_matches is_slash (trim path) in
    let slash : Text = codes "/" in
    let h' : (text_eq asked scope || starts_with (scope ++ slash) asked) ≡ true = rw tidy at h in
    elim (Bool-cases (text_eq asked scope)) [
      | inl e ↦
          subst (λ s. (text_eq inner s || starts_with (s ++ slash) inner) ≡ true)
            (text_eq→eq asked scope e) k
      | inr n ↦
          let under : starts_with (scope ++ slash) asked ≡ true = rw n at h' in
          elim (Bool-cases (text_eq inner scope)) [
            | inl e ↦ rw e refl
            | inr m ↦ elim (Bool-cases (text_eq inner asked)) [
              | inl e ↦ rw (m, text_eq→eq inner asked e) under
              | inr l ↦
                  rw m (starts_with_longer (scope ++ slash) asked slash inner under (rw l at k))
            ]
          ]
    ]

module _ (ext : External) (v : Vault) (action : Text) (prefix : Option Text) (path : Text) where
  covered :
      (rule : ScopeRule)
      → IsTidy prefix
      → prefix_match prefix path ≡ true
      → scope_matches_prefix ext rule v prefix ≡ true
      → scope_matches_path ext rule v path ≡ true
  unfolding scope_matches_prefix scope_matches_path
  covered rule tidy inside h =
      let parts = both (vault_matches_scope ext v rule.target) (covers ext rule.prefix prefix) h in
      rw parts.0 (by_prefix rule.prefix prefix tidy inside parts.1)
    where
      by_prefix :
          (scope asked : Option Text)
          → IsTidy asked
          → prefix_match asked path ≡ true
          → covers ext scope asked ≡ true
          → prefix_match scope path ≡ true
      by_prefix none asked tidy inside c = refl
      by_prefix (some s) none tidy inside c = cc
      by_prefix (some s) (some a) tidy inside c = prefix_match_trans s a path tidy c inside

  pub any-permits :
      (scopes : List Text)
      → IsTidy prefix
      → prefix_match prefix path ≡ true
      → any (λ rule. scope_matches_prefix ext rule v prefix) (matched_rules ext v action scopes)
        ≡ true
      → any (permits_path ext v action path) scopes ≡ true
  any-permits [] tidy inside h = h
  any-permits (s ∷ ss) tidy inside h = elim (Option-cases (parse_scope s)) [
    | inl n ↦ rw n (any-permits ss tidy inside (rw n at h))
    | inr (rule, r) ↦
        elim (Bool-cases
          (scope_allows_action rule.permission action && vault_matches_scope ext v rule.target)) [
            | inr k ↦
                or_right (permits_path ext v action path s) _
                  (any-permits ss tidy inside (rw (r, k) at h))
            | inl k ↦
                let rest =
                  any (λ (q : ScopeRule). scope_matches_prefix ext q v prefix)
                    (matched_rules ext v action ss) in
                let shown : (scope_matches_prefix ext rule v prefix || rest) ≡ true =
                  rw (r, k) at h in
                let parts =
                  both (scope_allows_action rule.permission action)
                    (vault_matches_scope ext v rule.target) k in
                elim (Bool-cases (scope_matches_prefix ext rule v prefix)) [
                  | inl m ↦ rw (r, parts.0, covered rule tidy inside m) refl
                  | inr m ↦
                      or_right (permits_path ext v action path s) _
                        (any-permits ss tidy inside (rw m at shown))
                ]
          ]
  ]

-- The account behind a permission for a prefix.
pub allows_prefix-account :
    (ext : External) (access : AccessDb) (id : ℕ) (v : Vault) (action : Text) (prefix : Option Text)
    → service_account_allows_prefix ext access id v action prefix ≡ true
    → (account : ServiceAccount) × (get_account access id ≡ ok (some account))
      × (any
            (λ rule. scope_matches_prefix ext rule v prefix)
            (matched_rules ext v action account.scopes)
          ≡ true)
unfolding service_account_allows_prefix
allows_prefix-account ext access id v action prefix h =
    elim (Result-cases (get_account access id)) [
      | inr (x, g) ↦ absurd (ground (arith, h, g))
      | inl (none, g) ↦ absurd (ground (arith, h, g))
      | inl (some account, g) ↦
          let rules = matched_rules ext v action account.scopes in
          let shown : rules_allow ext v prefix rules ≡ true = ground (arith, h, g) in
          let parts = both (not (is_empty rules)) _ shown in
          (
            account,
            g,
            (both (not (is_none prefix && all (λ rule. not (is_none rule.prefix)) rules)) _
                parts.1).1,
          )
    ]
