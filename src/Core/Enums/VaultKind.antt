-- ===== src/Core/Enums/VaultKind.antt =====
-- crates/zann-core/src/models/enums.rs: the enumeration `VaultKind` with its numbers and its names.
use zann.Base.{
  ◌≡◌, refl, ℤ, pos, negsuc, to_string, Result, ok, err, arith, ◌==◌, if◌then◌else◌, Text, codes,
  text_eq,
}
use zann.Core.EnumCodec.{EnumParseError, IsCodec}

pub data VaultKind : Type 0 where
  personal shared : VaultKind

pub VaultKind-discrete : Discrete VaultKind
VaultKind-discrete = hlevel

unfoldable pub as_i32 : VaultKind → ℤ
as_i32 personal = pos 1
as_i32 shared = pos 2

unfoldable pub try_from : ℤ → Result EnumParseError VaultKind
try_from (pos n) =
    if n == 1
    then ok personal
    else if n == 2
    then ok shared
    else err (record { enum_name = "vault_kind"; value = to_string (pos n) })
try_from (negsuc n) = err (record { enum_name = "vault_kind"; value = to_string (negsuc n) })

unfoldable pub from_str : Text → Result EnumParseError VaultKind
from_str t =
    if text_eq t (codes "personal")
    then ok personal
    else if text_eq t (codes "shared")
    then ok shared
    else err (record { enum_name = "vault_kind"; value = t })

pub VaultKind-IsCodec : IsCodec as_i32 try_from
unfolding as_i32 try_from
VaultKind-IsCodec = record { decodes = decodes; encodes = encodes }
  where
    decodes : (a : VaultKind) → try_from (as_i32 a) ≡ ok a
    decodes personal = refl
    decodes shared = refl

    encodes : (v : ℤ) (a : VaultKind) → try_from v ≡ ok a → v ≡ as_i32 a
    encodes (pos n) a h = ground arith
    encodes (negsuc n) a h = cc
