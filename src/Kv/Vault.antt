-- ===== src/Kv/Vault.antt =====
-- kv/vault: the constants of keys.go, entry.go, and the hashes of setsync.go.
pub mod Sizes
pub mod Entry
pub mod Plaintext
pub mod Aead
pub mod Keys
pub mod Pairing
pub mod Ids
mod Examples
