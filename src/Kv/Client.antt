-- ===== src/Kv/Client.antt =====
-- kv/client: what a client writes into its store, and the view of the current values that it reads
-- from it. Its synchronisation with a server is not modelled.
pub mod View
pub mod Positions
pub mod Merge
pub mod Reads
mod Examples
