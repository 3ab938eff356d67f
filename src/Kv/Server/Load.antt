-- ===== src/Kv/Server/Load.antt =====
-- kv/server/server.go: New, with loadPersistedVaults, and DropVaultDir. What reading a directory gives,
-- the parsed record and the opened log, is an argument.
use repani.Base.{
  ℕ, Bool, true, false, not, List, [], ◌∷◌, map, Bytes, if◌then◌else◌, Option, none, some, Result,
  ok, err,
}
use repani.Kv.Vault.Keys.{derive_reg_key, parse_vault_id}
use repani.Kv.Server.Quotas.{Quotas, with_defaults}
use repani.Kv.Server.Record.{VaultRecord, record_time, record_auth_key, ended_record}
use repani.Kv.Server.State.{StoreOps, VaultState, Server, Env, new_vault_state}
use repani.Kv.Server.Lifecycle.{install, sweep_locked}
use repani.Kv.Server.Pushes.{charge}

-- What readRecord finds.
pub data FoundRecord : Type 0 where
  no_record damaged : FoundRecord
  found : VaultRecord → FoundRecord

-- A directory under DataDir; `log` is what OpenLogStore opens in it.
pub record VaultDir (S : Type 0) : Type 0 where
  pub name : Bytes
  pub is_dir : Bool
  pub found_record : FoundRecord
  pub log : Option S

pub record Options : Type 0 where
  pub on_disk : Bool
  pub quotas : Quotas
  pub register_keys : List Bytes
  pub on_push : Bool

module _ {S A : Type 0} (cxof : Bytes → Bytes → Bytes) (ops : StoreOps S A) where
  -- A vault's state that no reference stands for.
  unfoldable pub no_state : VaultState S
  no_state = new_vault_state cxof ops.new_mem [] none

  -- The server of New before it loads. `records` is what is on disk.
  unfoldable pub new_server : Options → List (Bytes × VaultRecord) → Server S
  unfolding no_state
  new_server opt records = record {
    on_disk = opt.on_disk;
    quotas = with_defaults opt.quotas;
    reg_keys = map (derive_reg_key cxof) opt.register_keys;
    on_push = opt.on_push;
    heap = λ ref. no_state;
    next = 0;
    vaults = [];
    revoked = [];
    closing = false;
    records = records;
    pushed = [];
  }

  -- loadPersistedVaults on an opened log. A vault's directory is named by its id, as createVault names
  -- it; a directory whose name spells the id in upper case is not told apart from that one.
  unfoldable pub load_log : Bytes → VaultRecord → Bytes → S → Server S → Server S
  load_log vid r ak ls sv =
      install vid
        (record (new_vault_state cxof ls ak (some vid)) {
          bytes = charge (ops.sorted ls) 0;
          ephemeral = r.ephemeral;
          created = r.created;
        })
        sv

  abbrev pub revoke_id : Bytes → Server S → Server S
  revoke_id vid sv = record sv { revoked = vid ∷ sv.revoked }

  -- loadPersistedVaults on a record that says the vault has not ended.
  unfoldable pub load_live : Bytes → VaultRecord → Option S → Server S → Server S
  unfolding load_log
  load_live vid r log sv = elim (record_auth_key r) [
    | none ↦ revoke_id vid sv
    | some ak ↦ elim log [ none ↦ sv | some ls ↦ load_log vid r ak ls sv ]
  ]

  unfoldable pub load_record : Bytes → FoundRecord → Option S → Server S → Server S
  unfolding load_live
  load_record vid no_record log sv = sv
  load_record vid damaged log sv = revoke_id vid sv
  load_record vid (found r) log sv = elim r.ended [
    | some t ↦ revoke_id vid sv
    | none ↦ load_live vid r log sv
  ]

  -- One round of loadPersistedVaults.
  unfoldable pub load_dir : VaultDir S → Server S → Server S
  unfolding load_record
  load_dir d sv = if not d.is_dir then sv else elim (parse_vault_id d.name) [
    | none ↦ sv
    | some vid ↦ load_record vid d.found_record d.log sv
  ]

  unfoldable pub load_loop : List (VaultDir S) → Server S → Server S
  unfolding load_dir
  load_loop [] sv = sv
  load_loop (d ∷ ds) sv = load_loop ds (load_dir d sv)

  -- loadPersistedVaults, and whether the sweep at its end succeeded.
  unfoldable pub load_persisted_vaults : Env S A → List (VaultDir S) → Server S → Server S × Bool
  unfolding load_loop
  load_persisted_vaults env dirs sv = sweep_locked ops env (load_loop dirs sv)

-- What DropVaultDir can fail with: ErrVaultInUse, or an error of the system.
pub data DropError : Type 0 where
  vault_in_use drop_failed : DropError

-- What opening the log tells: there is none, it opens, another server holds it, or it cannot be read.
pub data LogLock : Type 0 where
  no_log opened locked unreadable : LogLock

-- The switch of DropVaultDir: the record it leaves, if it writes one, and whether the vault had ended.
unfoldable pub drop_record : ℕ → Bytes → FoundRecord → Option (Option VaultRecord × Bool)
drop_record now note damaged = none
drop_record now note no_record = some (
  some (
      ended_record now note (record {
        auth_key = none;
        ephemeral = false;
        created = record_time now;
        ended = none;
        note = none;
      })),
  false,
)
drop_record now note (found r) = elim r.ended [
  | some t ↦ some (none, true)
  | none ↦ some (some (ended_record now note r), false)
]

-- What becomes of DropVaultDir after its switch.
unfoldable pub finish_drop :
    Bool → Bool → Option (Option VaultRecord × Bool) → Option VaultRecord × Result DropError Bool
finish_drop writes removes none = (none, err drop_failed)
finish_drop writes removes (some (none, already)) =
    (none, if removes then ok already else err drop_failed)
finish_drop writes removes (some (some r, already)) =
    if not writes
    then (none, err drop_failed)
    else (some r, if removes then ok already else err drop_failed)

-- DropVaultDir on what the lock and the record answer, and whether the record can be written, its
-- directory made, and the log removed: the record that it writes, if any, and whether the vault had
-- ended before.
unfoldable pub drop_vault_dir :
    ℕ → Bytes → LogLock → FoundRecord → Bool → Bool → Option VaultRecord × Result DropError Bool
unfolding drop_record finish_drop
drop_vault_dir now note locked there writes removes = (none, err vault_in_use)
drop_vault_dir now note unreadable there writes removes = (none, err drop_failed)
drop_vault_dir now note no_log there writes removes =
    finish_drop writes removes (drop_record now note there)
drop_vault_dir now note opened there writes removes =
    finish_drop writes removes (drop_record now note there)
