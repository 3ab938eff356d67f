-- ===== src/Kv/Server/Steps.antt =====
-- The steps that the server takes, each under its mutex or a vault's, in any order and from any number
-- of requests at once.
use repani.Base.{ℕ, ◌^◌, ◌<◌, Bool, List, Bytes, Option}
use repani.Kv.Vault.Aead.{Aead}
use repani.Kv.Vault.Entry.{Entry}
use repani.Kv.Wire.Frame.{Header}
use repani.Kv.Wire.Sync.{SyncReq}
use repani.Kv.Server.State.{StoreOps, Server, Env}
use repani.Kv.Server.Lifecycle.{sweep_locked, drain, close_server}
use repani.Kv.Server.Register.{handle_register}
use repani.Kv.Server.Frames.{admit, perform, wake, Held}
use repani.Kv.Server.Owner.{ensure_vault, drop_vault, add_to, set_no_push}
use repani.Kv.Server.Laws.{StoreLaws, total_size}
use repani.Kv.Server.Moves.{Moves, here, then-Moves}
use repani.Kv.Server.Chains.{Opens, sweep_locked-Moves}
use repani.Kv.Server.Chains.Register.{handle_register-Moves}
use repani.Kv.Server.Chains.Sync.{admit-Moves, perform-Moves, wake-Moves}
use repani.Kv.Server.Chains.Owner.{
  ensure_vault-Moves, drop_vault-Moves, add_to-Moves, set_no_push-Moves, drain-Moves,
  close_server-Moves,
}

module _ {S A : Type 0} (cxof : Bytes → Bytes → Bytes) (new_aead : Bytes → Option Aead)
    (ops : StoreOps S A) (IsGood : S → Type 0) (held : S → List Entry)
    (Began : List Entry → ℕ → Type 0) where
  -- The clock and the bytes of a request's entries are below 2 ^ 63, and the log that is opened for a
  -- new vault holds what `Began` allows.
  pub data Step : Server S → Server S → Type 0 where
    registers :
        (env : Env S A) (h : Header) (sealed : Bytes) (sv : Server S)
        → Opens cxof ops IsGood held Began env
        → Step sv (handle_register cxof new_aead ops env h sealed sv).0
    admits :
        (env : Env S A) (h : Header) (sealed : Bytes) (sv : Server S)
        → Step sv (admit cxof new_aead ops env h sealed sv).0
    performs :
        (env : Env S A) (vid nonce : Bytes) (ref : ℕ) (req : SyncReq) (sv : Server S)
        → env.now < 2 ^ 63
        → total_size req.entries < 2 ^ 63
        → Step sv (perform cxof new_aead ops env vid nonce ref req sv).0
    wakes : (env : Env S A) (w : Held) (sv : Server S) → Step sv (wake cxof new_aead ops env w sv).0
    ensures :
        (env : Env S A) (vid ak : Bytes) (sv : Server S)
        → Opens cxof ops IsGood held Began env
        → Step sv (ensure_vault cxof ops env vid ak sv).0
    drops :
        (env : Env S A) (vid note : Bytes) (sv : Server S)
        → Step sv (drop_vault cxof ops env vid note sv).0
    adds :
        (env : Env S A) (ref : ℕ) (es : List Entry) (sv : Server S)
        → env.now < 2 ^ 63
        → total_size es < 2 ^ 63
        → Step sv (add_to cxof ops env ref es sv).0
    flags : (vid : Bytes) (v : Bool) (sv : Server S) → Step sv (set_no_push vid v sv).0
    sweeps : (env : Env S A) (sv : Server S) → Step sv (sweep_locked ops env sv).0
    drains : (sv : Server S) → Step sv (drain sv)
    closes : (sv : Server S) → Step sv (close_server ops sv)

  pub data Reach (sv : Server S) : Server S → Type 0 where
    start : Reach sv sv
    next : {sv1 sv2 : Server S} → Reach sv sv1 → Step sv1 sv2 → Reach sv sv2

  module _ (laws : StoreLaws cxof ops IsGood held) where
    Step-Moves : {sv sv' : Server S} → Step sv sv' → Moves cxof ops IsGood held Began sv sv'
    Step-Moves (registers env h sealed sv e) =
        handle_register-Moves cxof ops IsGood held Began new_aead laws env e h sealed sv
    Step-Moves (admits env h sealed sv) =
        admit-Moves cxof ops IsGood held Began new_aead env h sealed sv
    Step-Moves (performs env vid nonce ref req sv n h) =
        perform-Moves cxof ops IsGood held Began new_aead env vid nonce ref req sv n h
    Step-Moves (wakes env w sv) = wake-Moves cxof ops IsGood held Began new_aead env w sv
    Step-Moves (ensures env vid ak sv e) =
        ensure_vault-Moves cxof ops IsGood held Began laws env vid ak sv e
    Step-Moves (drops env vid note sv) = drop_vault-Moves cxof ops IsGood held Began env vid note sv
    Step-Moves (adds env ref es sv n h) = add_to-Moves cxof ops IsGood held Began env ref es sv n h
    Step-Moves (flags vid v sv) = set_no_push-Moves cxof ops IsGood held Began vid v sv
    Step-Moves (sweeps env sv) = sweep_locked-Moves cxof ops IsGood held Began env sv
    Step-Moves (drains sv) = drain-Moves cxof ops IsGood held Began sv
    Step-Moves (closes sv) = close_server-Moves cxof ops IsGood held Began sv

    pub Reach-Moves : {sv sv' : Server S} → Reach sv sv' → Moves cxof ops IsGood held Began sv sv'
    Reach-Moves start = here
    Reach-Moves (next r s) = then-Moves (Reach-Moves r) (Step-Moves s)
