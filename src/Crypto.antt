-- ===== src/Crypto.antt =====
-- crates/zann-crypto/src: the encrypted blobs, their envelope, and what the vaults encrypt.
pub mod Blob
pub mod Envelope
pub mod Vault
pub mod Parsing
pub mod Pieces
pub mod Canonical
pub mod RoundTrip
pub mod Binding
pub mod Fixtures
mod Tests
