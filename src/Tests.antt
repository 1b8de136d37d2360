-- ===== src/Tests.antt =====
-- The theorems at concrete inputs.
pub mod Base64
pub mod Stores
pub mod Services
pub mod Records
pub mod Requests
pub mod Handshake
pub mod Crypto
pub mod Facade
pub mod Proofs
pub mod Cluster
