-- ===== src/Lz4s.antt =====
-- lz4s/lz4s.go: the LZ4 variant for small texts, with a base that both sides hold.
pub mod Decoder
pub mod Table
pub mod Encoder
pub mod Sequence
pub mod Matches
pub mod Prefix
pub mod RoundTrip
pub mod Bounds
pub mod Costs
pub mod Expansion
mod Examples
pub mod Consumed
pub mod Copies
