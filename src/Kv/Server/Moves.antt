-- ===== src/Kv/Server/Moves.antt =====
-- What the operations of kv/server do to its state, as a few moves, and a chain of moves for each.
use repani.Base.{
  ℕ, ◌^◌, ◌<◌, ◌≡◌, ◌⊎◌, length, Bool, true, false, List, [], Bytes, Option, none, some, ok,
}
use repani.Kv.Vault.Entry.{Entry}
use repani.Kv.Store.Canonical.{has_id}
use repani.Kv.Server.Maps.{lookup}
use repani.Kv.Server.Quotas.{Quotas}
use repani.Kv.Server.Record.{VaultRecord}
use repani.Kv.Server.State.{StoreOps, VaultState, Server, set_state, with_store, new_vault_state}
use repani.Kv.Server.Lifecycle.{install, revoke, close_state}
use repani.Kv.Server.Pushes.{validate_new, add_validated_locked}
use repani.Kv.Server.Laws.{total_size}

module _ {S A : Type 0} (cxof : Bytes → Bytes → Bytes) (ops : StoreOps S A) (IsGood : S → Type 0)
    (held : S → List Entry) where
  -- What a request does to one vault under its lock.
  pub data Touch (quotas : Quotas) : VaultState S → VaultState S → Type 0 where
    left_alone : (st : VaultState S) → Touch quotas st st
    hashed : (st : VaultState S) → Touch quotas st (with_store (ops.set_hash st.s).0 st)
    flagged : (st : VaultState S) (v : Bool) → Touch quotas st (record st { no_push = v })
    shut : (st : VaultState S) → Touch quotas st (close_state ops st)
    pushed_to :
        (st : VaultState S) (now : ℕ) (check : Bool) (pushes : List Entry) (a : A)
        (news : List Entry)
        → st.gone ≡ false
        → now < 2 ^ 63
        → total_size pushes < 2 ^ 63
        → validate_new cxof ops now quotas st pushes check ≡ ok news
        → Touch quotas st (add_validated_locked ops a news st).0

-- `Began` says with which entries and which byte count a vault may begin that does not begin empty.
module _ {S A : Type 0} (cxof : Bytes → Bytes → Bytes) (ops : StoreOps S A) (IsGood : S → Type 0)
    (held : S → List Entry) (Began : List Entry → ℕ → Type 0) where
  -- The state of a new vault: its store is empty, or holds what its log held when it was opened, of
  -- which nothing is counted.
  pub record IsNew (st : VaultState S) : Type 0 where
    pub store_good : IsGood st.s
    pub store_began : (held st.s ≡ []) ⊎ (Began (held st.s) 0 × (length (held st.s) < 2 ^ 63))
    pub made :
        (dir : Option Bytes) × (created : ℕ) × (ephemeral : Bool) × (st
          ≡ record (new_vault_state cxof st.s st.auth_key dir) {
            created = created;
            ephemeral = ephemeral;
          })

  pub data Move : Server S → Server S → Type 0 where
    touch :
        (sv : Server S) (ref : ℕ) (st : VaultState S)
        → Touch cxof ops IsGood held sv.quotas (sv.heap ref) st
        → Move sv (set_state ref st sv)
    end_vault :
        (sv : Server S) (vid : Bytes) (ref : ℕ)
        → lookup vid sv.vaults ≡ some ref
        → Move sv (revoke ops vid ref sv)
    begin_vault :
        (sv : Server S) (vid : Bytes) (st : VaultState S)
        → has_id vid sv.revoked ≡ false
        → lookup vid sv.vaults ≡ none
        → IsNew st
        → Move sv (install vid st sv)
    write_record :
        (sv : Server S) (rs : List (Bytes × VaultRecord)) → Move sv (record sv { records = rs })
    call_hook : (sv : Server S) (calls : List Bytes) → Move sv (record sv { pushed = calls })
    shut_down : (sv : Server S) → Move sv (record sv { closing = true })

  pub data Moves (sv : Server S) : Server S → Type 0 where
    here : Moves sv sv
    more : {sv1 sv2 : Server S} → Moves sv sv1 → Move sv1 sv2 → Moves sv sv2

module _ {S A : Type 0} {cxof : Bytes → Bytes → Bytes} {ops : StoreOps S A} {IsGood : S → Type 0}
    {held : S → List Entry} {Began : List Entry → ℕ → Type 0} where
  pub then-Moves :
      {sv1 sv2 sv3 : Server S}
      → Moves cxof ops IsGood held Began sv1 sv2
      → Moves cxof ops IsGood held Began sv2 sv3
      → Moves cxof ops IsGood held Began sv1 sv3
  then-Moves ms here = ms
  then-Moves ms (more ns n) = more (then-Moves ms ns) n

  pub one-Move :
      {sv1 sv2 : Server S}
      → Move cxof ops IsGood held Began sv1 sv2
      → Moves cxof ops IsGood held Began sv1 sv2
  one-Move m = more here m
