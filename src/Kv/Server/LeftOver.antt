-- ===== src/Kv/Server/LeftOver.antt =====
-- A server that starts beside a vault whose log it cannot open, and whose owner makes the vault again:
-- the byte count starts from nothing, over a log that holds two entries.
use repani.Base.{◌≡◌, refl, Bool, true, false, List, [], ◌∷◌, none, some, compare_bytes}
use repani.Base.Hex.{hex_encode, hex_decode}
use repani.Kv.Samples.{first_bytes, both_entries}
use repani.Kv.Vault.Entry.{Entry}
use repani.Kv.Vault.Keys.{vault_id_string, parse_vault_id}
use repani.Kv.Store.Canonical.{has_id}
use repani.Kv.Store.LogStore.{WriteOutcome, written}
use repani.Kv.Store.MemStore.{add}
use repani.Kv.Server.Maps.{lookup, set_key, delete}
use repani.Kv.Server.Record.{record_auth_key}
use repani.Kv.Server.State.{Server, Env, new_vault_state, put_state}
use repani.Kv.Server.Lifecycle.{create_vault_locked, create_in, created_state, install}
use repani.Kv.Server.Load.{
  Options, VaultDir, found, new_server, load_loop, load_dir, load_record, load_live,
}
use repani.Kv.Server.Owner.{ensure_vault}
use repani.Kv.Server.Samples.{Store, ops, opt, env, vid, ak}

abbrev left_over : Store
left_over = (ops.add (written, true) both_entries ops.new_mem).0

abbrev disk_env : Env Store (WriteOutcome × Bool)
disk_env = record env { new_log = some left_over }

abbrev disk_opt : Options
disk_opt = record opt { on_disk = true }

abbrev unopened_dir : VaultDir Store
unopened_dir = record {
  name = vault_id_string vid;
  is_dir = true;
  found_record = found (record {
    auth_key = some (hex_encode ak);
    ephemeral = false;
    created = 0;
    ended = none;
    note = none;
  });
  log = none;
}

abbrev WasLeft : List Entry → Type 0
WasLeft es = es ≡ both_entries

abbrev started : Server Store
started = load_loop first_bytes ops (unopened_dir ∷ []) (new_server first_bytes ops disk_opt [])

abbrev made_again : Server Store
made_again = (ensure_vault first_bytes ops disk_env vid ak started).0

nothing_counted : (made_again.heap 0).bytes ≡ 0
unfolding ensure_vault create_vault_locked create_in install new_server lookup set_key delete has_id
    compare_bytes load_loop load_dir load_record load_live vault_id_string parse_vault_id hex_encode
    hex_decode record_auth_key created_state new_vault_state put_state
nothing_counted = refl
