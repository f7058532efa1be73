-- ===== src/Base.antt =====
-- The names that the other modules share: the libraries', passed on, and those of the children.
pub mod Tests
pub mod Lists
pub mod Slices
pub mod Perms
pub mod Chars
pub mod Results
pub mod Int
pub mod Utf8
pub use Tests.*
pub use Lists.*
pub use Results.*
pub use Perms.{any-permᴰ, length-perm, any-perm, all-perm, length-keep-perm}
pub use Prim.Native.Nat.{ℕ, zero, suc, ◌+◌, ◌-◌, ◌*◌, ◌/◌, ◌%◌, ◌^◌, ◌≤◌, ◌<◌, min, max}
pub use Prim.Native.String.{String}
pub use mathlib.Core.Path.{◌≡◌, refl, sym, ap, ◌∙◌}
pub use mathlib.Core.Logic.{◌≢◌, ◌↔◌, ◌⊎◌, inl, inr}
pub use mathlib.Core.Bool.{Bool, true, false, ◌&&◌, ◌||◌, not}
pub use mathlib.Core.Option.{Option, none, some}
pub use mathlib.Core.List.{List, [], ◌∷◌, ◌++◌, map, reverse}
pub use native.Mathlib.Omega.{arith}
pub use Int.{ℤ, pos, negsuc, pos_part, neg_part, ltb_ℤ}
unfoldable pub use Int.{to_string}
pub use Chars.{text_eq_refl, text_eq→eq}
unfoldable pub use Chars.{
  Text, codes, text_eq, is_empty, strip_prefix, starts_with, ends_with, has_char, is_whitespace,
  trim_start_matches, trim_matches, trim, grow_first, split, join, find, split_once, rsplit_once,
}
unfoldable pub use Utf8.{to_utf8, from_utf8}
