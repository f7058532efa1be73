-- ===== src/Core/EnumCodec.antt =====
-- crates/zann-core/src/models/enums.rs: the error of the conversions, and what a conversion between
-- an enumeration and its numbers or names has to satisfy.
use zann.Base.{◌≡◌, ℤ, Text, String, Result, ok}

pub record EnumParseError : Type 0 where
  pub enum_name : String
  pub value : Text

-- Decoding inverts encoding, and accepts nothing else.
pub record IsCodec {A : Type 0} (as_i32 : A → ℤ) (try_from : ℤ → Result EnumParseError A)
    : Type 0 where
  pub decodes : (a : A) → try_from (as_i32 a) ≡ ok a
  pub encodes : (v : ℤ) (a : A) → try_from v ≡ ok a → v ≡ as_i32 a
