-- ===== src/Kv/Server/Owner.antt =====
-- kv/server/owner.go: a co-resident owner's direct access.
use repani.Base.{
  ℕ, Bool, false, not, List, Bytes, if◌then◌else◌, Option, none, some, Result, ok, err,
}
use repani.Kv.Vault.Entry.{Entry}
use repani.Kv.Store.Canonical.{has_id, bytes_eq}
use repani.Kv.Server.Maps.{lookup, keys}
use repani.Kv.Server.State.{StoreOps, Server, Env, ServeError, set_state}
use repani.Kv.Server.Lifecycle.{end_locked, create_vault_locked}
use repani.Kv.Server.Pushes.{Refusal, validate_new, add_validated_locked}

-- The errors of owner.go, and what createVaultLocked, endLocked and the store return.
pub data OwnerError : Type 0 where
  unknown_vault auth_key_mismatch revoked end_failed add_failed : OwnerError
  refused : Refusal → OwnerError
  create_failed : ServeError → OwnerError

module _ {S A : Type 0} (cxof : Bytes → Bytes → Bytes) (ops : StoreOps S A) where
  -- EnsureVault
  unfoldable pub ensure_vault : Env S A → Bytes → Bytes → Server S → Server S × Option OwnerError
  ensure_vault env vid ak sv =
      if has_id vid sv.revoked then (sv, some revoked) else elim (lookup vid sv.vaults) [
        | some ref ↦
            (sv, if not (bytes_eq (sv.heap ref).auth_key ak) then some auth_key_mismatch else none)
        | none ↦
            let r = create_vault_locked ops cxof env vid ak false sv in
            (r.0, elim r.1 [ ok ref ↦ none | err e ↦ some (create_failed e) ])
      ]

  -- DropVault
  unfoldable pub drop_vault : Env S A → Bytes → Bytes → Server S → Server S × Option OwnerError
  drop_vault env vid note sv = elim (lookup vid sv.vaults) [
    | none ↦ (sv, some unknown_vault)
    | some ref ↦
        let r = end_locked ops env vid ref note sv in (r.0, if r.1 then none else some end_failed)
  ]

  -- Entries
  unfoldable pub vault_entries : Bytes → Server S → Result OwnerError (List Entry)
  vault_entries vid sv = elim (lookup vid sv.vaults) [
    | none ↦ err unknown_vault
    | some ref ↦ if (sv.heap ref).gone then err unknown_vault else ok (ops.sorted (sv.heap ref).s)
  ]

  -- AddEntries from the vault's lock on.
  unfoldable pub add_to : Env S A → ℕ → List Entry → Server S → Server S × Option OwnerError
  add_to env ref entries sv =
      let st = sv.heap ref in
      if st.gone
      then (sv, some unknown_vault)
      else elim (validate_new cxof ops env.now sv.quotas st entries false) [
        | err r ↦ (sv, some (refused r))
        | ok news ↦
            let r = add_validated_locked ops env.answer news st in
            (set_state ref r.0 sv, elim r.1 [ none ↦ some add_failed | some n ↦ none ])
      ]

  -- AddEntries
  unfoldable pub add_entries :
      Env S A → Bytes → List Entry → Server S → Server S × Option OwnerError
  unfolding add_to
  add_entries env vid entries sv = elim (lookup vid sv.vaults) [
    | none ↦ (sv, some unknown_vault)
    | some ref ↦ add_to env ref entries sv
  ]

module _ {S : Type 0} where
  -- SetNoPush
  unfoldable pub set_no_push : Bytes → Bool → Server S → Server S × Option OwnerError
  set_no_push vid v sv = elim (lookup vid sv.vaults) [
    | none ↦ (sv, some unknown_vault)
    | some ref ↦ (set_state ref (record (sv.heap ref) { no_push = v }) sv, none)
  ]

  -- Vaults
  unfoldable pub vaults : Server S → List Bytes
  vaults sv = keys sv.vaults
