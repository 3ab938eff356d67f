-- ===== src/Kv/Server/Pushes.antt =====
-- kv/server/server.go: what PUSH and AddEntries share, validateNew and addValidatedLocked.
pub mod Validation
use repani.Base.{
  ℕ, ◌+◌, ◌%◌, ◌^◌, Bool, true, false, not, ◌||◌, ◌&&◌, List, [], ◌∷◌, ◌++◌, Bytes, length, take,
  ltb, if◌then◌else◌, Option, none, some, Result, ok, err,
}
use repani.Kv.Vault.Entry.{Entry, size}
use repani.Kv.Vault.Ids.{entry_id}
use repani.Kv.Store.Canonical.{has_id}
use repani.Kv.Server.Quotas.{Quotas}
use repani.Kv.Server.State.{StoreOps, VaultState, notify_locked}

-- ErrQuota and errSkew
pub data Refusal : Type 0 where
  quota skew : Refusal

-- uint64 addition
abbrev pub add64 : ℕ → ℕ → ℕ
add64 a b = (a + b) % 2 ^ 64

-- The skew check, if it is on, against the latest timestamp that it admits.
abbrev pub is_late : Option ℕ → Entry → Bool
is_late none e = false
is_late (some most) e = ltb most e.ts_ms

-- now + skew, an unsigned sum, where the skew is checked
unfoldable pub skew_limit : ℕ → Quotas → Bool → Option ℕ
skew_limit now quotas check_skew = if check_skew then some (add64 now quotas.ts_skew_ms) else none

module _ {S A : Type 0} (cxof : Bytes → Bytes → Bytes) (ops : StoreOps S A) where
  -- The loop of validateNew: the entries that are new and their bytes.
  unfoldable pub validate_loop :
      Option ℕ → S → List Entry → List Bytes → List Entry → ℕ → Result Refusal (List Entry × ℕ)
  validate_loop limit s [] seen news total = ok (news, total)
  validate_loop limit s (e ∷ es) seen news total =
      let id = entry_id cxof e in
      let old = has_id id seen || ops.has id s in
      let rest =
        validate_loop limit s es (if old then seen else id ∷ seen)
          (if old then news else news ++ e ∷ []) (if old then total else add64 total (size e)) in
      if not old && is_late limit e then err skew else rest

  -- What validateNew does after its loop.
  unfoldable pub within_quotas :
      Quotas → VaultState S → Result Refusal (List Entry × ℕ) → Result Refusal (List Entry)
  within_quotas quotas st (err r) = err r
  within_quotas quotas st (ok (news, total)) =
      if ltb quotas.max_entries (add64 (ops.len st.s) (length news))
      then err quota
      else if ltb quotas.max_vault_bytes (add64 st.bytes total)
      then err quota
      else ok news

  -- validateNew
  unfoldable pub validate_new :
      ℕ → Quotas → VaultState S → List Entry → Bool → Result Refusal (List Entry)
  unfolding validate_loop within_quotas
  validate_new now quotas st pushes check_skew =
      within_quotas quotas st (validate_loop (skew_limit now quotas check_skew) st.s pushes [] [] 0)

-- The loop of addValidatedLocked.
unfoldable pub charge : List Entry → ℕ → ℕ
charge [] bytes = bytes
charge (e ∷ es) bytes = charge es (add64 bytes (size e))

module _ {S A : Type 0} (ops : StoreOps S A) where
  -- addValidatedLocked: none is the store's error, which leaves the accounts alone.
  unfoldable pub add_validated_locked : A → List Entry → VaultState S → VaultState S × Option ℕ
  unfolding charge
  add_validated_locked answer entries st =
      let r = ops.add answer entries st.s in
      elim r.1 [
        | none ↦ (record st { s = r.0 }, none)
        | some added ↦
            let paid = record st { s = r.0; bytes = charge (take added entries) st.bytes } in
            (if ltb 0 added then notify_locked paid else paid, some added)
      ]
