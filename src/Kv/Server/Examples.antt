-- ===== src/Kv/Server/Examples.antt =====
-- What a server in memory with one vault keeps: its accounts, its revoked vaults, its waits and records.
use repani.Base.{
  ◌≤◌, ◌≡◌, ◌⊎◌, refl, Bool, true, false, [], ◌∷◌, Bytes, length, replicate, max, none, some,
  compare_bytes, put_le,
}
use repani.Kv.Samples.{first_bytes, plain_new_aead, plain_seal}
use repani.Kv.Vault.Ids.{set_hash_ids}
use repani.Kv.Store.Canonical.{has_id}
use repani.Kv.Store.LogStore.{WriteOutcome}
use repani.Kv.Wire.Resp.{status_ok}
use repani.Kv.Server.Maps.{lookup, delete, set_key}
use repani.Kv.Server.State.{Server, Env, new_vault_state, put_state, with_store}
use repani.Kv.Server.Load.{new_server}
use repani.Kv.Server.Lifecycle.{
  create_vault_locked, create_in, created_state, install, revoke, end_locked,
}
use repani.Kv.Server.Owner.{ensure_vault, drop_vault}
use repani.Kv.Server.Stores.{vault_ops, held_in}
use repani.Kv.Server.Stores.Lawful.{IsGood, stores_lawful}
use repani.Kv.Server.Laws.{StoreLaws}
use repani.Kv.Server.Steps.{start, next, drops}
use repani.Kv.Server.Registry.{IsRegistry}
use repani.Kv.Server.Revoked.{IsShutOut, revoked_for_good}
use repani.Kv.Server.Waits.{hash_of, no_lost_wakeup}
use repani.Kv.Server.Replies.{seal_resp}
use repani.Kv.Store.MemStore.{set_hash}
use repani.Base.Hex.{hex_encode, hex_decode}
use repani.Kv.Vault.Keys.{vault_id_string, parse_vault_id}
use repani.Kv.Wire.Frame.{Header}
use repani.Kv.Server.Endings.{HasEnded, CannotWrite, CanWrite, end_locked_lem}
use repani.Kv.Server.Load.{VaultDir, damaged, load_loop}
use repani.Kv.Server.Restarts.{In, dir_id, IsRefused, start_refuses_ended}
use repani.Kv.Server.Register.{handle_register}
use repani.Kv.Server.Caps.{handle_register_capped}
use repani.Kv.Server.Frames.{Held, held, handle_wait, wake, set_changed, fires}
use repani.Kv.Server.Samples.{
  Store, ops, opt, env, vid, ak, one_vault, laws, one_step, IsRegistry-of, IsAccounted-of,
  allocated, NoOther,
}

-- The server whose owner has dropped the vault again.
abbrev dropped : Server Store
dropped = (drop_vault first_bytes ops env vid [] one_vault).0

vid_revoked : has_id vid dropped.revoked ≡ true
unfolding ensure_vault create_vault_locked create_in install new_server lookup set_key delete has_id
    compare_bytes drop_vault end_locked revoke created_state new_vault_state put_state
vid_revoked = refl

revoked_for_good_example :
    IsShutOut first_bytes plain_new_aead ops
      (IsGood first_bytes)
      (held_in first_bytes)
      NoOther
      vid
      dropped
revoked_for_good_example =
    revoked_for_good first_bytes plain_new_aead ops (IsGood first_bytes) (held_in first_bytes)
      NoOther laws dropped dropped vid
      (IsRegistry-of dropped (next one_step (drops env vid [] one_vault))) vid_revoked start

-- A WAIT for the empty set.
abbrev want : Bytes
want = (ops.set_hash (one_vault.heap 0).s).1

abbrev waiting : Server Store
waiting = (handle_wait first_bytes plain_new_aead ops env vid (replicate 16 4) 0 want one_vault).0

abbrev the_wait : Held
the_wait = record { vault_id = vid; ref = 0; nonce = replicate 16 4; want = want; generation = 0 }

is_held :
    handle_wait first_bytes plain_new_aead ops env vid (replicate 16 4) 0 want one_vault
    ≡ (waiting, held the_wait)
unfolding handle_wait ensure_vault create_vault_locked create_in install new_server lookup set_key
    delete has_id compare_bytes created_state new_vault_state put_state set_hash set_hash_ids put_le
is_held = refl

not_woken : fires set_changed the_wait waiting ≡ false
unfolding handle_wait ensure_vault create_vault_locked create_in install new_server lookup set_key
    delete has_id compare_bytes created_state new_vault_state put_state set_hash set_hash_ids put_le
    fires with_store
not_woken = refl

no_lost_wakeup_example :
    ((waiting.heap 0).gone ≡ false)
    × (hash_of first_bytes ops (IsGood first_bytes) (held_in first_bytes) NoOther (waiting.heap 0)
        ≡ want)
    × ((env' : Env Store (WriteOutcome × Bool))
        → (wake first_bytes plain_new_aead ops env' the_wait waiting).1
          ≡ seal_resp first_bytes plain_new_aead env' vid
              (waiting.heap 0).s2c
              (replicate 16 4)
              status_ok
              [])
no_lost_wakeup_example =
    no_lost_wakeup first_bytes ops (IsGood first_bytes) (held_in first_bytes) NoOther laws
      plain_new_aead env vid (replicate 16 4) want 0 one_vault waiting waiting the_wait
      (IsAccounted-of one_vault one_step).1 (IsAccounted-of one_vault one_step).0 allocated is_held
      start not_woken

end_locked_lem_example :
    (CannotWrite ops env (one_vault.heap 0)
      × (end_locked ops env vid 0 [] one_vault ≡ (one_vault, false)))
    ⊎ (CanWrite ops env (one_vault.heap 0)
        × ((end_locked ops env vid 0 [] one_vault).1 ≡ true)
        × HasEnded ops 5000 vid 0 one_vault (end_locked ops env vid 0 [] one_vault).0)
end_locked_lem_example = end_locked_lem ops env vid 0 [] one_vault

-- A directory whose record cannot be read.
abbrev damaged_dir : VaultDir Store
damaged_dir = record {
  name = vault_id_string vid;
  is_dir = true;
  found_record = damaged;
  log = none;
}

start_refuses_ended_example :
    IsRegistry (load_loop first_bytes ops (damaged_dir ∷ []) (new_server first_bytes ops opt []))
    × ((d : VaultDir Store) (v : Bytes)
        → In first_bytes ops d (damaged_dir ∷ [])
        → dir_id d ≡ some v
        → IsRefused d.found_record
        → has_id v
            (load_loop first_bytes ops
              (damaged_dir ∷ [])
              (new_server first_bytes ops opt [])).revoked
          ≡ true)
start_refuses_ended_example = start_refuses_ended first_bytes ops (damaged_dir ∷ []) opt [] (tt, tt)

damaged_named : dir_id damaged_dir ≡ some vid
unfolding vault_id_string parse_vault_id hex_encode hex_decode
damaged_named = refl

abbrev register_header : Header
register_header = record { kind = 1; vault_id = replicate 16 6; nonce = replicate 16 4 }

abbrev registered : Server Store
registered =
    (handle_register first_bytes plain_new_aead ops env register_header (plain_seal ak) one_vault).0

handle_register_capped_example :
    length registered.vaults ≤ max (length one_vault.vaults) one_vault.quotas.max_vaults
handle_register_capped_example =
    handle_register_capped first_bytes plain_new_aead ops env register_header (plain_seal ak)
      one_vault

stores_lawful_example :
    StoreLaws first_bytes (vault_ops first_bytes) (IsGood first_bytes) (held_in first_bytes)
stores_lawful_example = stores_lawful first_bytes
