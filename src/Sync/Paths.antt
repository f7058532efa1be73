-- ===== src/Sync/Paths.antt =====
-- crates/zann-server/src/domains/sync/http/v1/helpers.rs: paths and names of items.
use zann.Base.{
  ℕ, Bool, not, Option, none, some, List, [], ◌∷◌, Text, is_empty, has_char, trim, trim_matches,
  split, join, keep, ◌==◌, unwrap_or, if◌then◌else◌,
}

abbrev pub is_slash : ℕ → Bool
is_slash c = c == b'/'

abbrev pub last_of {ℓ} : {A : Type ℓ} → List A → Option A
last_of [] = none
last_of (x ∷ []) = some x
last_of (x ∷ (y ∷ ys)) = last_of (y ∷ ys)

-- `*parts.last_mut() = name`.
abbrev pub set_last {ℓ} : {A : Type ℓ} → A → List A → List A
set_last a [] = []
set_last a (x ∷ []) = a ∷ []
set_last a (x ∷ (y ∷ ys)) = x ∷ set_last a (y ∷ ys)

unfoldable pub basename_from_path : Text → Text
basename_from_path path =
    unwrap_or
      (last_of (keep (λ part. not (is_empty part)) (split b'/' (trim_matches is_slash path)))) path

unfoldable pub replace_basename : Text → Text → Text
replace_basename path name =
    let trimmed = trim_matches is_slash path in
    if is_empty trimmed then name else join b'/' (set_last name (split b'/' trimmed))

-- `opt.map(str::trim).filter(|value| !value.is_empty())`.
unfoldable pub nonblank : Option Text → Option Text
nonblank none = none
nonblank (some t) = if is_empty (trim t) then none else some (trim t)

unfoldable pub rename : Text → Option Text → Text
unfolding basename_from_path replace_basename
rename path none = path
rename path (some name) =
    replace_basename path (if has_char b'/' name then basename_from_path name else name)

unfoldable pub normalize_path_and_name : Text → Option Text → Option Text → Text × Text
unfolding nonblank rename
normalize_path_and_name current_path new_path new_name =
    let path = rename (unwrap_or (nonblank new_path) current_path) (nonblank new_name) in
    (path, basename_from_path path)
