-- ===== src/Core/Enums/StorageKind.antt =====
-- crates/zann-core/src/services.rs: the enumeration `StorageKind` with its numbers.
use zann.Base.{◌≡◌, refl, ℤ, pos, negsuc, to_string, Result, ok, err, arith, ◌==◌, if◌then◌else◌}
use zann.Core.EnumCodec.{EnumParseError, IsCodec}

pub data StorageKind : Type 0 where
  local_only remote : StorageKind

pub StorageKind-discrete : Discrete StorageKind
StorageKind-discrete = hlevel

unfoldable pub as_i32 : StorageKind → ℤ
as_i32 local_only = pos 1
as_i32 remote = pos 2

unfoldable pub try_from : ℤ → Result EnumParseError StorageKind
try_from (pos n) =
    if n == 1
    then ok local_only
    else if n == 2
    then ok remote
    else err (record { enum_name = "storage_kind"; value = to_string (pos n) })
try_from (negsuc n) = err (record { enum_name = "storage_kind"; value = to_string (negsuc n) })

pub StorageKind-IsCodec : IsCodec as_i32 try_from
unfolding as_i32 try_from
StorageKind-IsCodec = record { decodes = decodes; encodes = encodes }
  where
    decodes : (a : StorageKind) → try_from (as_i32 a) ≡ ok a
    decodes local_only = refl
    decodes remote = refl

    encodes : (v : ℤ) (a : StorageKind) → try_from v ≡ ok a → v ≡ as_i32 a
    encodes (pos n) a h = ground arith
    encodes (negsuc n) a h = cc
