-- ===== src/Core/Enums/VaultEncryptionType.antt =====
-- crates/zann-core/src/models/enums.rs: the enumeration `VaultEncryptionType` with its numbers and its names.
use zann.Base.{
  ◌≡◌, refl, ℤ, pos, negsuc, to_string, Result, ok, err, arith, ◌==◌, if◌then◌else◌, Text, codes,
  text_eq,
}
use zann.Core.EnumCodec.{EnumParseError, IsCodec}

pub data VaultEncryptionType : Type 0 where
  client server : VaultEncryptionType

pub VaultEncryptionType-discrete : Discrete VaultEncryptionType
VaultEncryptionType-discrete = hlevel

unfoldable pub as_i32 : VaultEncryptionType → ℤ
as_i32 client = pos 1
as_i32 server = pos 2

unfoldable pub try_from : ℤ → Result EnumParseError VaultEncryptionType
try_from (pos n) =
    if n == 1
    then ok client
    else if n == 2
    then ok server
    else err (record { enum_name = "vault_encryption_type"; value = to_string (pos n) })
try_from (negsuc n) =
    err (record { enum_name = "vault_encryption_type"; value = to_string (negsuc n) })

unfoldable pub from_str : Text → Result EnumParseError VaultEncryptionType
from_str t =
    if text_eq t (codes "client")
    then ok client
    else if text_eq t (codes "server")
    then ok server
    else err (record { enum_name = "vault_encryption_type"; value = t })

pub VaultEncryptionType-IsCodec : IsCodec as_i32 try_from
unfolding as_i32 try_from
VaultEncryptionType-IsCodec = record { decodes = decodes; encodes = encodes }
  where
    decodes : (a : VaultEncryptionType) → try_from (as_i32 a) ≡ ok a
    decodes client = refl
    decodes server = refl

    encodes : (v : ℤ) (a : VaultEncryptionType) → try_from v ≡ ok a → v ≡ as_i32 a
    encodes (pos n) a h = ground arith
    encodes (negsuc n) a h = cc
