-- ===== src/Kv/Store.antt =====
-- kv/store: the entry set of clients and servers. `Canonical` is the abstract set that the Store
-- interface of store.go promises, `MemStore` and `LogStore` the two implementations.
pub mod Canonical
pub mod MemStore
pub mod LogStore
mod Examples
