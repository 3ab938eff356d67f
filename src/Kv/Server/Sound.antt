-- ===== src/Kv/Server/Sound.antt =====
-- The accounts of a server that New has made and loaded, through every step.
use repani.Base.{ℕ, ◌+◌, ◌^◌, ◌<◌, ◌≡◌, ◌⊎◌, inl, refl, List, length, Bytes, Option, some}
use repani.Kv.Vault.Aead.{Aead}
use repani.Kv.Vault.Entry.{Entry}
use repani.Kv.Server.Quotas.{Quotas, with_defaults}
use repani.Kv.Server.Record.{VaultRecord}
use repani.Kv.Server.State.{StoreOps, VaultState, Server, new_vault_state}
use repani.Kv.Server.Load.{Options, VaultDir, new_server, no_state}
use repani.Kv.Server.Laws.{StoreLaws, total_size}
use repani.Kv.Server.Accounts.{begun-KeepsAccounts}
use repani.Kv.Server.Accounts.Vaults.{IsAccounted}

module _ {S A : Type 0} (cxof : Bytes → Bytes → Bytes) (new_aead : Bytes → Option Aead)
    (ops : StoreOps S A) (IsGood : S → Type 0) (held : S → List Entry)
    (Began : List Entry → ℕ → Type 0) where
  module _ (laws : StoreLaws cxof ops IsGood held) where
    pub new_server-IsAccounted :
        (opt : Options) (records : List (Bytes × VaultRecord))
        → IsAccounted cxof ops IsGood held Began laws (new_server cxof ops opt records)
    unfolding new_server no_state new_vault_state total_size
    new_server-IsAccounted opt records ref = (
      held ops.new_mem,
      (
        0,
        (
          inl (laws.new_held, refl),
          begun-KeepsAccounts cxof ops IsGood held (with_defaults opt.quotas) (no_state cxof ops)
              laws.new_good refl refl,
        ),
      ),
    )

-- How a vault may begin that does not begin empty: with all its entries counted, as a start loads it,
-- or with entries that `Opened` allows, found in its log when it was made, of which none are counted.
abbrev pub BeganWith : (List Entry → Type 0) → List Entry → ℕ → Type 0
BeganWith Opened old counted = (counted ≡ total_size old) ⊎ (Opened old × (counted ≡ 0))

module _ {S A : Type 0} (cxof : Bytes → Bytes → Bytes) (ops : StoreOps S A) (IsGood : S → Type 0)
    (held : S → List Entry) (Opened : List Entry → Type 0) where
  -- A log that a start opens is a good store, of fewer than 2 ^ 63 entries and bytes.
  abbrev pub HasGoodLog : VaultDir S → Type 0
  HasGoodLog d =
      (ls : S)
      → d.log ≡ some ls
      → IsGood ls × ((length (held ls) < 2 ^ 63) × (total_size (held ls) < 2 ^ 63))

  module _ (laws : StoreLaws cxof ops IsGood held) where
    -- What the byte count is: the size of the entries, or of those that came after the vault was made
    -- where its log held some already.
    abbrev pub CountsBytes : VaultState S → Type 0
    CountsBytes st =
        (st.bytes ≡ total_size (ops.sorted st.s))
        ⊎ ((old : List Entry) × (Opened old
              × (st.bytes + total_size old ≡ total_size (ops.sorted st.s))))
