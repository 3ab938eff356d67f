-- ===== src/Kv.antt =====
-- kv: the encrypted key-value store.
pub mod Vault
pub mod Wire
pub mod Store
pub mod Server
pub mod Client
mod Samples
