-- ===== src/Core.antt =====
-- crates/zann-core: the data that clients and server share.
pub mod EnumCodec
pub mod Enums
pub mod Structs
pub mod Conversions
