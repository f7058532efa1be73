-- ===== src/Auth/Display.antt =====
-- crates/zann-server/src/infra/user_display.rs: how a user is shown.
use zann.Base.{
  ℕ, Bool, false, ◌||◌, ◌&&◌, not, Option, List, [], ◌∷◌, Text, codes, is_empty, is_whitespace,
  trim, split, keep, take, leb, unwrap_or, if◌then◌else◌,
}
use zann.Sync.Paths.{nonblank}

unfoldable pub display_name_for_user : Option Text → Text → Text
unfolding nonblank
display_name_for_user full_name email = unwrap_or (nonblank full_name) email

-- The first characters of the words; the flag says that a word goes on.
unfoldable pub word_starts : Bool → Text → Text
unfolding is_whitespace
word_starts inside [] = []
word_starts inside (c ∷ cs) =
    let rest = word_starts (not (is_whitespace c)) cs in
    if is_whitespace c || inside then rest else c ∷ rest

abbrev pub is_ascii_alphanumeric : ℕ → Bool
is_ascii_alphanumeric c =
    (leb b'0' c && leb c b'9') || ((leb b'a' c && leb c b'z') || (leb b'A' c && leb c b'Z'))

abbrev first_part : List Text → Text → Text
first_part [] email = email
first_part (p ∷ ps) email = p

-- The initials of the name, or else of the part of the address before `@`, or else U.
unfoldable pub avatar_initials_for_user : (Text → Text) → Option Text → Text → Text
unfolding word_starts trim split nonblank
avatar_initials_for_user to_uppercase full_name email =
    let of_name = take 2 (word_starts false (unwrap_or (nonblank full_name) [])) in
    let local = trim (first_part (split b'@' email) email) in
    let of_email = take 2 (keep is_ascii_alphanumeric local) in
    if not (is_empty of_name)
    then to_uppercase of_name
    else to_uppercase (if is_empty of_email then codes "U" else of_email)
