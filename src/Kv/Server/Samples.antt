-- ===== src/Kv/Server/Samples.antt =====
-- A server in memory with one vault.
use repani.Base.{
  ℕ, List, subst, inl, inr, ◌<◌, ◌≡◌, refl, Bool, true, false, [], ◌∷◌, Bytes, replicate, none,
  some, compare_bytes, arith,
}
use repani.Kv.Samples.{first_bytes, plain_new_aead}
use repani.Kv.Store.Canonical.{has_id}
use repani.Kv.Store.LogStore.{written, WriteOutcome}
use repani.Kv.Server.Maps.{lookup, delete, set_key}
use repani.Kv.Server.Quotas.{with_defaults}
use repani.Kv.Server.State.{StoreOps, Server, Env}
use repani.Kv.Server.Load.{Options, new_server}
use repani.Kv.Server.Lifecycle.{create_vault_locked, create_in, install}
use repani.Kv.Server.Owner.{ensure_vault}
use repani.Kv.Server.Stores.{VaultStore, vault_ops, held_in}
use repani.Kv.Server.Stores.Lawful.{IsGood, stores_lawful}
use repani.Kv.Server.Laws.{StoreLaws}
use repani.Kv.Server.Chains.{Opens}
use repani.Kv.Server.Accounts.{IsBounded, HasAccounts, KeepsAccounts, KeepsAccounts-HasAccounts}
use repani.Kv.Vault.Entry.{Entry}
use repani.Kv.Server.Accounts.Vaults.{IsAccounted, Moves-IsAccounted}
use repani.Kv.Server.Steps.{Reach, Reach-Moves, start, next, ensures}
use repani.Kv.Server.Sound.{new_server-IsAccounted}
use repani.Kv.Server.Registry.{IsRegistry, Moves-IsRegistry}
use repani.Kv.Server.Restarts.{new_server-IsRegistry}

abbrev pub Store : Type 0
Store = VaultStore

abbrev pub ops : StoreOps Store (WriteOutcome × Bool)
ops = vault_ops first_bytes

abbrev pub opt : Options
opt = record {
  on_disk = false;
  quotas = record {
    max_entries = 0;
    max_vault_bytes = 0;
    max_vaults = 0;
    ts_skew_ms = 0;
    ephemeral_ttl_ms = 0;
    wait_max_ms = 0;
  };
  register_keys = replicate 16 9 ∷ [];
  on_push = true;
}

abbrev pub env : Env Store (WriteOutcome × Bool)
env = record {
  now = 5000;
  writes = λ dir. true;
  makes_dir = true;
  new_log = none;
  unix_nano = 7;
  random = some (replicate 16 3);
  answer = (written, true);
}

abbrev pub vid : Bytes
vid = replicate 16 1

abbrev pub ak : Bytes
ak = replicate 16 2

abbrev pub empty_server : Server Store
empty_server = new_server first_bytes ops opt []

-- The server with a vault that its owner has made.
abbrev pub one_vault : Server Store
one_vault = (ensure_vault first_bytes ops env vid ak empty_server).0

pub laws : StoreLaws first_bytes ops (IsGood first_bytes) (held_in first_bytes)
laws = stores_lawful first_bytes

-- No vault begins with entries.
abbrev pub NoOther : List Entry → ℕ → Type 0
NoOther old counted = ⊥

pub env-Opens : Opens first_bytes ops (IsGood first_bytes) (held_in first_bytes) NoOther env
env-Opens = λ ls h. absurd (cc)

pub defaults-IsBounded : IsBounded (with_defaults opt.quotas)
unfolding with_defaults
defaults-IsBounded = record {
  entries_bound = omega arith;
  bytes_bound = omega arith;
  skew_bound = omega arith;
}

pub one_step :
    Reach first_bytes plain_new_aead ops
      (IsGood first_bytes)
      (held_in first_bytes)
      NoOther
      empty_server
      one_vault
one_step = next start (ensures env vid ak empty_server env-Opens)

pub vid_served : lookup vid one_vault.vaults ≡ some 0
unfolding ensure_vault create_vault_locked create_in install new_server lookup set_key delete has_id
    compare_bytes
vid_served = refl

pub IsRegistry-of :
    (sv : Server Store)
    → Reach first_bytes plain_new_aead ops
        (IsGood first_bytes)
        (held_in first_bytes)
        NoOther
        empty_server
        sv
    → IsRegistry sv
IsRegistry-of sv steps =
    Moves-IsRegistry first_bytes ops (IsGood first_bytes) (held_in first_bytes) NoOther
      (Reach-Moves first_bytes plain_new_aead ops (IsGood first_bytes) (held_in first_bytes) NoOther
        laws steps)
      (new_server-IsRegistry first_bytes ops opt [])

pub IsAccounted-of :
    (sv : Server Store)
    → Reach first_bytes plain_new_aead ops
        (IsGood first_bytes)
        (held_in first_bytes)
        NoOther
        empty_server
        sv
    → IsAccounted first_bytes ops (IsGood first_bytes) (held_in first_bytes) NoOther laws sv
      × IsBounded sv.quotas
unfolding new_server
IsAccounted-of sv steps =
    Moves-IsAccounted first_bytes ops (IsGood first_bytes) (held_in first_bytes) NoOther laws
      defaults-IsBounded
      (Reach-Moves first_bytes plain_new_aead ops (IsGood first_bytes) (held_in first_bytes) NoOther
        laws steps)
      (new_server-IsAccounted first_bytes plain_new_aead ops (IsGood first_bytes)
        (held_in first_bytes) NoOther laws opt [])

pub HasAccounts-of :
    (sv : Server Store) (ref : ℕ)
    → Reach first_bytes plain_new_aead ops
        (IsGood first_bytes)
        (held_in first_bytes)
        NoOther
        empty_server
        sv
    → HasAccounts first_bytes ops (IsGood first_bytes) (held_in first_bytes) sv.quotas (sv.heap ref)
HasAccounts-of sv ref steps =
    let (old, (counted, (begun, k))) = (IsAccounted-of sv steps).0 ref in
    elim begun [
      | inr (other, _, _) ↦ absurd other
      | inl (empty, nothing) ↦
          KeepsAccounts-HasAccounts first_bytes ops (IsGood first_bytes) (held_in first_bytes)
            sv.quotas (sv.heap ref)
            (subst
              (λ es.
                KeepsAccounts first_bytes ops (IsGood first_bytes) (held_in first_bytes) es 0
                  sv.quotas (sv.heap ref))
              empty
              (subst
                (λ (n : ℕ).
                  KeepsAccounts first_bytes ops (IsGood first_bytes) (held_in first_bytes) old n
                    sv.quotas (sv.heap ref))
                nothing k))
    ]

pub allocated : 0 < one_vault.next
unfolding ensure_vault create_vault_locked create_in install new_server lookup set_key delete has_id
allocated = omega arith
