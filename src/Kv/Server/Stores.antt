-- ===== src/Kv/Server/Stores.antt =====
-- The stores behind a vault: a MemStore without a data directory, a LogStore with one. Their answers to
-- an Add are LogStore's: what the system does with the write, and with the truncation of a rollback.
pub mod Fresh
pub mod Lawful
pub mod Weight
use repani.Base.{ℕ, Bool, List, Bytes, Option, none, some, Result, ok, err}
use repani.Kv.Vault.Entry.{Entry}
use repani.Kv.Store.MemStore.{
  MemStore, new_mem_store, has_entry, len, sorted, entries_after, set_hash, add as mem_add,
}
use repani.Kv.Store.LogStore.{LogStore, LogError, WriteOutcome, close, add as log_add}
use repani.Kv.Server.State.{StoreOps}

pub data VaultStore : Type 0 where
  memory : MemStore → VaultStore
  logged : LogStore → VaultStore

abbrev pub mem_of : VaultStore → MemStore
mem_of (memory m) = m
mem_of (logged ls) = ls.mem

abbrev pub with_mem : MemStore → VaultStore → VaultStore
with_mem m (memory _) = memory m
with_mem m (logged ls) = logged (record ls { mem = m })

abbrev pub count_of : Result LogError ℕ → Option ℕ
count_of (ok n) = some n
count_of (err e) = none

unfoldable pub vault_close : VaultStore → VaultStore
vault_close (memory m) = memory m
vault_close (logged ls) = logged (close ls)

module _ (cxof : Bytes → Bytes → Bytes) where
  unfoldable pub vault_add : WriteOutcome × Bool → List Entry → VaultStore → VaultStore × Option ℕ
  vault_add a es (memory m) = let r = mem_add cxof es m in (memory r.0, some r.1)
  vault_add a es (logged ls) = let r = log_add cxof a.0 a.1 es ls in (logged r.0, count_of r.1)

  abbrev pub vault_ops : StoreOps VaultStore (WriteOutcome × Bool)
  vault_ops = record {
    new_mem = memory new_mem_store;
    has = λ id s. has_entry id (mem_of s);
    len = λ s. len (mem_of s);
    sorted = λ s. sorted (mem_of s);
    add = vault_add;
    set_hash = λ s. (let r = set_hash cxof (mem_of s) in (with_mem r.0 s, r.1));
    entries_after = λ ts id budget s. entries_after ts id budget (mem_of s);
    close = vault_close;
  }

  abbrev pub held_in : VaultStore → List Entry
  held_in s = (mem_of s).entries
