-- ===== src/Core/Enums/UserStatus.antt =====
-- crates/zann-core/src/models/enums.rs: the enumeration `UserStatus` with its numbers and its names.
use zann.Base.{
  ◌≡◌, refl, ℤ, pos, negsuc, to_string, Result, ok, err, arith, ◌==◌, if◌then◌else◌, Text, codes,
  text_eq,
}
use zann.Core.EnumCodec.{EnumParseError, IsCodec}

pub data UserStatus : Type 0 where
  active disabled system : UserStatus

pub UserStatus-discrete : Discrete UserStatus
UserStatus-discrete = hlevel

unfoldable pub as_i32 : UserStatus → ℤ
as_i32 active = pos 1
as_i32 disabled = pos 2
as_i32 system = pos 3

unfoldable pub try_from : ℤ → Result EnumParseError UserStatus
try_from (pos n) =
    if n == 1
    then ok active
    else if n == 2
    then ok disabled
    else if n == 3
    then ok system
    else err (record { enum_name = "user_status"; value = to_string (pos n) })
try_from (negsuc n) = err (record { enum_name = "user_status"; value = to_string (negsuc n) })

unfoldable pub from_str : Text → Result EnumParseError UserStatus
from_str t =
    if text_eq t (codes "active")
    then ok active
    else if text_eq t (codes "disabled")
    then ok disabled
    else if text_eq t (codes "system")
    then ok system
    else err (record { enum_name = "user_status"; value = t })

pub UserStatus-IsCodec : IsCodec as_i32 try_from
unfolding as_i32 try_from
UserStatus-IsCodec = record { decodes = decodes; encodes = encodes }
  where
    decodes : (a : UserStatus) → try_from (as_i32 a) ≡ ok a
    decodes active = refl
    decodes disabled = refl
    decodes system = refl

    encodes : (v : ℤ) (a : UserStatus) → try_from v ≡ ok a → v ≡ as_i32 a
    encodes (pos n) a h = ground arith
    encodes (negsuc n) a h = cc
