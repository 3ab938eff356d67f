-- ===== src/Kv/Server/Lifecycle.antt =====
-- kv/server/server.go: how a vault begins and ends. Each function holds the server's mutex.
use repani.Base.{
  ℕ, suc, Bool, true, false, not, List, [], ◌∷◌, Bytes, if◌then◌else◌, Option, none, some, Result,
  ok, err,
}
use repani.Kv.Server.Maps.{lookup, delete, set_key, keys}
use repani.Kv.Server.Record.{record_time, ended_record}
use repani.Kv.Server.State.{
  StoreOps, VaultState, Server, Env, ServeError, dir_failed, record_failed, log_failed, put_state,
  set_state, is_current, notify_locked, expired, served_record, new_vault_state,
}

-- noteExpired and noteDropped
abbrev pub note_expired : Bytes
note_expired =
    b'e' ∷ b'p' ∷ b'h' ∷ b'e' ∷ b'm' ∷ b'e' ∷ b'r' ∷ b'a' ∷ b'l' ∷ b':' ∷ b' ' ∷ b'e' ∷ b'x' ∷ b'p'
    ∷ b'i' ∷ b'r' ∷ b'e' ∷ b'd' ∷ []

abbrev pub note_dropped : Bytes
note_dropped =
    b'e' ∷ b'p' ∷ b'h' ∷ b'e' ∷ b'm' ∷ b'e' ∷ b'r' ∷ b'a' ∷ b'l' ∷ b':' ∷ b' ' ∷ b'd' ∷ b'r' ∷ b'o'
    ∷ b'p' ∷ b'p' ∷ b'e' ∷ b'd' ∷ b' ' ∷ b'b' ∷ b'y' ∷ b' ' ∷ b'i' ∷ b't' ∷ b's' ∷ b' ' ∷ b'h'
    ∷ b'o' ∷ b'l' ∷ b'd' ∷ b'e' ∷ b'r' ∷ []

module _ {S : Type 0} where
  -- The vault's state in the heap, and the map's entry for it.
  unfoldable pub install : Bytes → VaultState S → Server S → Server S
  install vid st sv = record sv {
    heap = put_state sv.next st sv.heap;
    next = suc sv.next;
    vaults = set_key vid sv.next sv.vaults;
  }

module _ {S A : Type 0} (ops : StoreOps S A) where
  -- The vault's state once it has ended: closed, and its waits woken.
  unfoldable pub ended_state : VaultState S → VaultState S
  ended_state st = notify_locked (record st { s = ops.close st.s; gone = true })

  -- The server without the vault, its record aside.
  unfoldable pub revoke : Bytes → ℕ → Server S → Server S
  unfolding ended_state
  revoke vid ref sv = record (set_state ref (ended_state (sv.heap ref)) sv) {
    vaults = delete vid sv.vaults;
    revoked = vid ∷ sv.revoked;
  }

  -- endLocked, and whether it ended the vault. A log that cannot be closed or removed is only reported.
  unfoldable pub end_locked : Env S A → Bytes → ℕ → Bytes → Server S → Server S × Bool
  unfolding revoke
  end_locked env vid ref note sv = elim (sv.heap ref).dir [
    | none ↦ (revoke vid ref sv, true)
    | some dir ↦
        if env.writes dir
        then (
          record (revoke vid ref sv) {
            records =
                set_key dir (ended_record env.now note (served_record (sv.heap ref))) sv.records;
          },
          true,
        )
        else (sv, false)
  ]

  unfoldable pub end_if_expired : Env S A → Bytes → ℕ → Server S → Server S × Bool
  unfolding end_locked
  end_if_expired env vid ref sv =
      if expired env.now sv.quotas (sv.heap ref)
      then end_locked env vid ref note_expired sv
      else (sv, true)

  -- The loop of sweepLocked over the keys of the map, where a range reads the value of a key that is
  -- still there when it comes to it.
  unfoldable pub sweep_loop : Env S A → List Bytes → Server S → Server S × Bool
  unfolding end_if_expired
  sweep_loop env [] sv = (sv, true)
  sweep_loop env (vid ∷ vids) sv =
      let r : Server S × Bool = elim (lookup vid sv.vaults) [
        | none ↦ (sv, true)
        | some ref ↦ end_if_expired env vid ref sv
      ] in
      let rest = sweep_loop env vids r.0 in if r.1 then rest else r

  -- sweepLocked
  unfoldable pub sweep_locked : Env S A → Server S → Server S × Bool
  unfolding sweep_loop
  sweep_locked env sv = sweep_loop env (keys sv.vaults) sv

  -- expireIfDue: the server, whether the vault ended, and whether that went without an error.
  unfoldable pub expire_if_due : Env S A → Bytes → ℕ → Server S → Server S × Bool × Bool
  expire_if_due env vid ref sv =
      if not (expired env.now sv.quotas (sv.heap ref))
      then (sv, false, true)
      else if not (is_current vid ref sv)
      then (sv, true, true)
      else let r = end_locked env vid ref note_expired sv in (r.0, true, r.1)

  -- The state that createVaultLocked makes around a store.
  unfoldable pub created_state :
      (Bytes → Bytes → Bytes) → ℕ → Bytes → Bool → S → Option Bytes → VaultState S
  created_state cxof now ak ephemeral s dir = record (new_vault_state cxof s ak dir) {
    ephemeral = ephemeral;
    created = record_time now;
  }

  -- createVaultLocked without a data directory, and with one.
  unfoldable pub create_in :
      Bool
      → (Bytes → Bytes → Bytes)
      → Env S A
      → Bytes
      → Bytes
      → Bool
      → Server S
      → Server S × Result ServeError ℕ
  unfolding install created_state
  create_in false cxof env vid ak ephemeral sv =
      (install vid (created_state cxof env.now ak ephemeral ops.new_mem none) sv, ok sv.next)
  create_in true cxof env vid ak ephemeral sv =
      if not env.makes_dir
      then (sv, err dir_failed)
      else if not (env.writes vid)
      then (sv, err record_failed)
      else let st = created_state cxof env.now ak ephemeral ops.new_mem (some vid) in
        let kept = record sv { records = set_key vid (served_record st) sv.records } in
        elim env.new_log [
          | none ↦ (kept, err log_failed)
          | some ls ↦ (install vid (record st { s = ls }) kept, ok sv.next)
        ]

  -- createVaultLocked
  unfoldable pub create_vault_locked :
      (Bytes → Bytes → Bytes)
      → Env S A
      → Bytes
      → Bytes
      → Bool
      → Server S
      → Server S × Result ServeError ℕ
  unfolding create_in
  create_vault_locked cxof env vid ak ephemeral sv =
      create_in sv.on_disk cxof env vid ak ephemeral sv

-- Drain
unfoldable pub drain : {S : Type 0} → Server S → Server S
drain sv = record sv { closing = true }

module _ {S A : Type 0} (ops : StoreOps S A) where
  unfoldable pub close_state : VaultState S → VaultState S
  close_state st = record st { s = ops.close st.s; closed = true }

  -- The loop of Close over the vaults; an error of a store's Close is only returned.
  unfoldable pub close_loop : List (Bytes × ℕ) → Server S → Server S
  unfolding close_state
  close_loop [] sv = sv
  close_loop (v ∷ vs) sv = close_loop vs (set_state v.1 (close_state (sv.heap v.1)) sv)

  -- Close
  unfoldable pub close_server : Server S → Server S
  unfolding close_loop drain
  close_server sv = close_loop sv.vaults (drain sv)
