-- ===== src/Core/Enums/ChangeOp.antt =====
-- crates/zann-core/src/models/enums.rs: the enumeration `ChangeOp` with its numbers and its names.
use zann.Base.{
  ◌≡◌, refl, ℤ, pos, negsuc, to_string, Result, ok, err, arith, ◌==◌, if◌then◌else◌, Text, codes,
  text_eq,
}
use zann.Core.EnumCodec.{EnumParseError, IsCodec}

pub data ChangeOp : Type 0 where
  create update delete : ChangeOp

pub ChangeOp-discrete : Discrete ChangeOp
ChangeOp-discrete = hlevel

unfoldable pub as_i32 : ChangeOp → ℤ
as_i32 create = pos 1
as_i32 update = pos 2
as_i32 delete = pos 3

unfoldable pub try_from : ℤ → Result EnumParseError ChangeOp
try_from (pos n) =
    if n == 1
    then ok create
    else if n == 2
    then ok update
    else if n == 3
    then ok delete
    else err (record { enum_name = "change_op"; value = to_string (pos n) })
try_from (negsuc n) = err (record { enum_name = "change_op"; value = to_string (negsuc n) })

unfoldable pub from_str : Text → Result EnumParseError ChangeOp
from_str t =
    if text_eq t (codes "create")
    then ok create
    else if text_eq t (codes "update")
    then ok update
    else if text_eq t (codes "delete")
    then ok delete
    else err (record { enum_name = "change_op"; value = t })

pub ChangeOp-IsCodec : IsCodec as_i32 try_from
unfolding as_i32 try_from
ChangeOp-IsCodec = record { decodes = decodes; encodes = encodes }
  where
    decodes : (a : ChangeOp) → try_from (as_i32 a) ≡ ok a
    decodes create = refl
    decodes update = refl
    decodes delete = refl

    encodes : (v : ℤ) (a : ChangeOp) → try_from v ≡ ok a → v ≡ as_i32 a
    encodes (pos n) a h = ground arith
    encodes (negsuc n) a h = cc
