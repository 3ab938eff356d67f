-- ===== src/Kv/Server/State.antt =====
-- kv/server/server.go: the state. A *vaultState is an index into a heap, so a request that has looked
-- one up still reaches it after the map has lost it. `S` is the store of a vault and `A` what the
-- system answers to the store's writes.
use repani.Base.{
  ℕ, Bool, false, List, Bytes, ◌==◌, leb, ◌+◌, ◌&&◌, if◌then◌else◌, Option, none, some,
}
use repani.Base.Hex.{hex_encode}
use repani.Kv.Vault.Entry.{Entry}
use repani.Kv.Vault.Keys.{derive_c2s, derive_s2c}
use repani.Kv.Wire.Errors.{WireError}
use repani.Kv.Server.Maps.{lookup}
use repani.Kv.Server.Quotas.{Quotas}
use repani.Kv.Server.Record.{VaultRecord}

-- store.Store, with NewMemStore and Close where the store has one. Add is `none` where it fails.
pub record StoreOps (S A : Type 0) : Type 0 where
  pub new_mem : S
  pub has : Bytes → S → Bool
  pub len : S → ℕ
  pub sorted : S → List Entry
  pub add : A → List Entry → S → S × Option ℕ
  pub set_hash : S → S × Bytes
  pub entries_after : ℕ → Bytes → ℕ → S → List Entry
  pub close : S → S

-- vaultState. `dir` is the name of its directory, none for ""; `changed` counts the channels that
-- notifyLocked has closed.
pub record VaultState (S : Type 0) : Type 0 where
  pub s : S
  pub auth_key : Bytes
  pub c2s : Bytes
  pub s2c : Bytes
  pub bytes : ℕ
  pub dir : Option Bytes
  pub no_push : Bool
  pub ephemeral : Bool
  pub created : ℕ
  pub gone : Bool
  pub closed : Bool
  pub changed : ℕ

-- Server. `records` is what the data directory holds of vault records, by directory; `pushed` are the
-- calls of OnPush, the latest first.
pub record Server (S : Type 0) : Type 0 where
  pub on_disk : Bool
  pub quotas : Quotas
  pub reg_keys : List Bytes
  pub on_push : Bool
  pub heap : ℕ → VaultState S
  pub next : ℕ
  pub vaults : List (Bytes × ℕ)
  pub revoked : List Bytes
  pub closing : Bool
  pub records : List (Bytes × VaultRecord)
  pub pushed : List Bytes

-- What the surroundings answer while one request is served: the clock, which stands still for its time;
-- whether a vault's record can be written and its directory made; the log that OpenLogStore opens for
-- a new vault; random bytes; and the answer to the store's write.
pub record Env (S A : Type 0) : Type 0 where
  pub now : ℕ
  pub writes : Bytes → Bool
  pub makes_dir : Bool
  pub new_log : Option S
  pub unix_nano : ℕ
  pub random : Option Bytes
  pub answer : A

pub data ServeError : Type 0 where
  no_random dir_failed record_failed log_failed store_failed : ServeError
  wire_failed : WireError → ServeError

module _ {S : Type 0} where
  unfoldable pub put_state : ℕ → VaultState S → (ℕ → VaultState S) → ℕ → VaultState S
  put_state ref st heap r = if r == ref then st else heap r

  abbrev pub set_state : ℕ → VaultState S → Server S → Server S
  set_state ref st sv = record sv { heap = put_state ref st sv.heap }

  -- s.vaults[vid] == st
  unfoldable pub is_current : Bytes → ℕ → Server S → Bool
  is_current vid ref sv = elim (lookup vid sv.vaults) [ none ↦ false | some r ↦ r == ref ]

  unfoldable pub with_store : S → VaultState S → VaultState S
  with_store s st = record st { s = s }

  -- notifyLocked
  abbrev pub notify_locked : VaultState S → VaultState S
  notify_locked st = record st { changed = st.changed + 1 }

  -- expired
  unfoldable pub expired : ℕ → Quotas → VaultState S → Bool
  expired now quotas st = st.ephemeral && leb (st.created + quotas.ephemeral_ttl_ms) now

  -- record
  unfoldable pub served_record : VaultState S → VaultRecord
  served_record st = record {
    auth_key = some (hex_encode st.auth_key);
    ephemeral = st.ephemeral;
    created = st.created;
    ended = none;
    note = none;
  }

-- newVaultState
unfoldable pub new_vault_state :
    {S : Type 0} → (Bytes → Bytes → Bytes) → S → Bytes → Option Bytes → VaultState S
new_vault_state cxof s ak dir = record {
  s = s;
  auth_key = ak;
  c2s = derive_c2s cxof ak;
  s2c = derive_s2c cxof ak;
  bytes = 0;
  dir = dir;
  no_push = false;
  ephemeral = false;
  created = 0;
  gone = false;
  closed = false;
  changed = 0;
}
