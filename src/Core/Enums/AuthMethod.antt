-- ===== src/Core/Enums/AuthMethod.antt =====
-- crates/zann-core/src/services.rs: the enumeration `AuthMethod` with its numbers.
use zann.Base.{◌≡◌, refl, ℤ, pos, negsuc, to_string, Result, ok, err, arith, ◌==◌, if◌then◌else◌}
use zann.Core.EnumCodec.{EnumParseError, IsCodec}

pub data AuthMethod : Type 0 where
  password oidc service_account : AuthMethod

pub AuthMethod-discrete : Discrete AuthMethod
AuthMethod-discrete = hlevel

unfoldable pub as_i32 : AuthMethod → ℤ
as_i32 password = pos 1
as_i32 oidc = pos 2
as_i32 service_account = pos 3

unfoldable pub try_from : ℤ → Result EnumParseError AuthMethod
try_from (pos n) =
    if n == 1
    then ok password
    else if n == 2
    then ok oidc
    else if n == 3
    then ok service_account
    else err (record { enum_name = "auth_method"; value = to_string (pos n) })
try_from (negsuc n) = err (record { enum_name = "auth_method"; value = to_string (negsuc n) })

pub AuthMethod-IsCodec : IsCodec as_i32 try_from
unfolding as_i32 try_from
AuthMethod-IsCodec = record { decodes = decodes; encodes = encodes }
  where
    decodes : (a : AuthMethod) → try_from (as_i32 a) ≡ ok a
    decodes password = refl
    decodes oidc = refl
    decodes service_account = refl

    encodes : (v : ℤ) (a : AuthMethod) → try_from v ≡ ok a → v ≡ as_i32 a
    encodes (pos n) a h = ground arith
    encodes (negsuc n) a h = cc
