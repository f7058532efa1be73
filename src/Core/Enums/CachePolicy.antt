-- ===== src/Core/Enums/CachePolicy.antt =====
-- crates/zann-core/src/models/enums.rs: the enumeration `CachePolicy` with its numbers and its names.
use zann.Base.{
  ◌≡◌, refl, ℤ, pos, negsuc, to_string, Result, ok, err, arith, ◌==◌, if◌then◌else◌, Text, codes,
  text_eq,
}
use zann.Core.EnumCodec.{EnumParseError, IsCodec}

pub data CachePolicy : Type 0 where
  full metadata_only none : CachePolicy

pub CachePolicy-discrete : Discrete CachePolicy
CachePolicy-discrete = hlevel

unfoldable pub as_i32 : CachePolicy → ℤ
as_i32 full = pos 1
as_i32 metadata_only = pos 2
as_i32 none = pos 3

unfoldable pub try_from : ℤ → Result EnumParseError CachePolicy
try_from (pos n) =
    if n == 1
    then ok full
    else if n == 2
    then ok metadata_only
    else if n == 3
    then ok none
    else err (record { enum_name = "cache_policy"; value = to_string (pos n) })
try_from (negsuc n) = err (record { enum_name = "cache_policy"; value = to_string (negsuc n) })

unfoldable pub from_str : Text → Result EnumParseError CachePolicy
from_str t =
    if text_eq t (codes "full")
    then ok full
    else if text_eq t (codes "metadata_only")
    then ok metadata_only
    else if text_eq t (codes "none")
    then ok none
    else err (record { enum_name = "cache_policy"; value = t })

pub CachePolicy-IsCodec : IsCodec as_i32 try_from
unfolding as_i32 try_from
CachePolicy-IsCodec = record { decodes = decodes; encodes = encodes }
  where
    decodes : (a : CachePolicy) → try_from (as_i32 a) ≡ ok a
    decodes full = refl
    decodes metadata_only = refl
    decodes none = refl

    encodes : (v : ℤ) (a : CachePolicy) → try_from v ≡ ok a → v ≡ as_i32 a
    encodes (pos n) a h = ground arith
    encodes (negsuc n) a h = cc
