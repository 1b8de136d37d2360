-- ===== src/Crypto.antt =====
-- The cryptographic library, lib/*.js.
pub mod Bytes
pub mod X25519
pub mod Result
pub mod Hkdf
pub mod SessionKeys
pub mod Aead
pub mod Channel
pub mod Routing
pub mod Ed25519
pub mod Handshake
pub mod Facade
pub mod Seed
pub mod Adapter
