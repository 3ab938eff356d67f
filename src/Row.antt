-- ===== src/Row.antt =====
-- row/row.go: the binary codec of rows.
pub mod Int
pub mod Varint
pub mod Zigzag
pub mod Value
pub mod Encode
pub mod Decode
pub mod Strings
pub mod Items
pub mod Canonical
pub mod Accepts
pub mod OneForm
pub mod RoundTrip
mod Examples
pub mod Scalars
