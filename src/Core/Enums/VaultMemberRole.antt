-- ===== src/Core/Enums/VaultMemberRole.antt =====
-- crates/zann-core/src/models/enums.rs: the enumeration `VaultMemberRole` with its numbers and its names.
use zann.Base.{
  ◌≡◌, refl, ℤ, pos, negsuc, to_string, Result, ok, err, arith, ◌==◌, if◌then◌else◌, Text, codes,
  text_eq,
}
use zann.Core.EnumCodec.{EnumParseError, IsCodec}

pub data VaultMemberRole : Type 0 where
  admin operator member readonly : VaultMemberRole

pub VaultMemberRole-discrete : Discrete VaultMemberRole
VaultMemberRole-discrete = hlevel

unfoldable pub as_i32 : VaultMemberRole → ℤ
as_i32 admin = pos 1
as_i32 operator = pos 2
as_i32 member = pos 3
as_i32 readonly = pos 4

unfoldable pub try_from : ℤ → Result EnumParseError VaultMemberRole
try_from (pos n) =
    if n == 1
    then ok admin
    else if n == 2
    then ok operator
    else if n == 3
    then ok member
    else if n == 4
    then ok readonly
    else err (record { enum_name = "vault_member_role"; value = to_string (pos n) })
try_from (negsuc n) = err (record { enum_name = "vault_member_role"; value = to_string (negsuc n) })

unfoldable pub from_str : Text → Result EnumParseError VaultMemberRole
from_str t =
    if text_eq t (codes "admin")
    then ok admin
    else if text_eq t (codes "operator")
    then ok operator
    else if text_eq t (codes "member")
    then ok member
    else if text_eq t (codes "readonly")
    then ok readonly
    else err (record { enum_name = "vault_member_role"; value = t })

pub VaultMemberRole-IsCodec : IsCodec as_i32 try_from
unfolding as_i32 try_from
VaultMemberRole-IsCodec = record { decodes = decodes; encodes = encodes }
  where
    decodes : (a : VaultMemberRole) → try_from (as_i32 a) ≡ ok a
    decodes admin = refl
    decodes operator = refl
    decodes member = refl
    decodes readonly = refl

    encodes : (v : ℤ) (a : VaultMemberRole) → try_from v ≡ ok a → v ≡ as_i32 a
    encodes (pos n) a h = ground arith
    encodes (negsuc n) a h = cc
