-- ===== src/Access/Pattern.antt =====
-- crates/zann-server/src/domains/access_control/http.rs and
-- crates/zann-server/src/domains/vaults/http/v1/shared/helpers.rs: patterns with `*` over vault slugs.
pub mod Plain
use zann.Base.{
  ◌+◌, Bool, true, false, ◌||◌, ◌&&◌, not, Option, none, some, List, [], ◌∷◌, Text, codes, text_eq,
  keep, length, drop, is_empty, split, find, starts_with, ends_with, ◌==◌, if◌then◌else◌,
}
use zann.Access.Policy.{is_some_and}

-- The loop over the parts: `rest` is `value[index..]`, and `first` holds while `i == 0`.
unfoldable pub match_parts : Bool → Bool → List Text → Text → Option Text
match_parts starts_with_wildcard first [] rest = some rest
match_parts starts_with_wildcard first (part ∷ parts) rest = elim (find part rest) [
  | none ↦ none
  | some pos ↦
      let next = match_parts starts_with_wildcard false parts (drop (pos + length part) rest) in
      if first && (not starts_with_wildcard && not (pos == 0)) then none else next
]

abbrev pub last_part : List Text → Option Text
last_part [] = none
last_part (p ∷ []) = some p
last_part (p ∷ (q ∷ ps)) = last_part (q ∷ ps)

abbrev pub parts_of : Text → List Text
parts_of pattern = keep (λ p. not (is_empty p)) (split b'*' pattern)

unfoldable pub matches_pattern : Text → Text → Bool
unfolding match_parts
matches_pattern pattern value =
    if text_eq pattern (codes "*") || text_eq pattern (codes "**")
    then true
    else if is_empty (parts_of pattern)
    then true
    else elim (match_parts (starts_with (codes "*") pattern) true (parts_of pattern) value) [
      | none ↦ false
      | some rest ↦
          if not (ends_with (codes "*") pattern)
          then is_some_and (λ last. ends_with last value) (last_part (parts_of pattern))
          else true
    ]
