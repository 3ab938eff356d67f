-- ===== src/Kv/Wire.antt =====
-- kv/wire/wire.go: frames and payloads, one child for each kind.
pub mod Errors
pub mod PreChannel
pub mod Entries
pub mod Sync
pub mod Resp
pub mod Register
pub mod Frame
mod Examples
