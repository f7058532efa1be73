-- ===== src/Core/Enums/ChangeType.antt =====
-- crates/zann-core/src/models/enums.rs: the enumeration `ChangeType` with its numbers and its names.
use zann.Base.{
  ◌≡◌, refl, ℤ, pos, negsuc, to_string, Result, ok, err, arith, ◌==◌, if◌then◌else◌, Text, codes,
  text_eq,
}
use zann.Core.EnumCodec.{EnumParseError, IsCodec}

pub data ChangeType : Type 0 where
  create update delete restore : ChangeType

pub ChangeType-discrete : Discrete ChangeType
ChangeType-discrete = hlevel

unfoldable pub as_i32 : ChangeType → ℤ
as_i32 create = pos 1
as_i32 update = pos 2
as_i32 delete = pos 3
as_i32 restore = pos 4

unfoldable pub try_from : ℤ → Result EnumParseError ChangeType
try_from (pos n) =
    if n == 1
    then ok create
    else if n == 2
    then ok update
    else if n == 3
    then ok delete
    else if n == 4
    then ok restore
    else err (record { enum_name = "change_type"; value = to_string (pos n) })
try_from (negsuc n) = err (record { enum_name = "change_type"; value = to_string (negsuc n) })

unfoldable pub from_str : Text → Result EnumParseError ChangeType
from_str t =
    if text_eq t (codes "create")
    then ok create
    else if text_eq t (codes "update")
    then ok update
    else if text_eq t (codes "delete")
    then ok delete
    else if text_eq t (codes "restore")
    then ok restore
    else err (record { enum_name = "change_type"; value = t })

pub ChangeType-IsCodec : IsCodec as_i32 try_from
unfolding as_i32 try_from
ChangeType-IsCodec = record { decodes = decodes; encodes = encodes }
  where
    decodes : (a : ChangeType) → try_from (as_i32 a) ≡ ok a
    decodes create = refl
    decodes update = refl
    decodes delete = refl
    decodes restore = refl

    encodes : (v : ℤ) (a : ChangeType) → try_from v ≡ ok a → v ≡ as_i32 a
    encodes (pos n) a h = ground arith
    encodes (negsuc n) a h = cc
