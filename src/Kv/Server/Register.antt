-- ===== src/Kv/Server/Register.antt =====
-- kv/server/server.go: handleRegister.
use repani.Base.{
  ℕ, Bool, not, List, [], ◌∷◌, Bytes, length, leb, if◌then◌else◌, Option, none, some, ok, err,
}
use repani.Kv.Vault.Aead.{Aead}
use repani.Kv.Vault.Keys.{derive_s2c}
use repani.Kv.Store.Canonical.{has_id, bytes_eq}
use repani.Kv.Wire.PreChannel.{reply, err_bad_frame, err_bad_auth, err_try_later}
use repani.Kv.Wire.Frame.{Header, open_frame}
use repani.Kv.Wire.Register.{parse_register}
use repani.Kv.Wire.Resp.{status_ok, status_quota}
use repani.Kv.Server.Maps.{lookup}
use repani.Kv.Server.State.{StoreOps, Server, Env, expired}
use repani.Kv.Server.Lifecycle.{note_expired, end_locked, sweep_locked, create_vault_locked}
use repani.Kv.Server.Replies.{Response, seal_resp}

-- The loop of handleRegister over the registration keys.
unfoldable pub open_any : (Bytes → Option Aead) → List Bytes → Header → Bytes → Option Bytes
open_any new_aead [] h sealed = none
open_any new_aead (k ∷ ks) h sealed = elim (open_frame new_aead k h sealed) [
  | ok payload ↦ some payload
  | err e ↦ open_any new_aead ks h sealed
]

module _ {S A : Type 0} (cxof : Bytes → Bytes → Bytes) (new_aead : Bytes → Option Aead)
    (ops : StoreOps S A) where
  -- handleRegister where the vault is served.
  unfoldable pub register_present :
      Env S A → Bytes → Bytes → Bytes → ℕ → Server S → Server S × Response
  register_present env vid nonce ak ref sv =
      let st = sv.heap ref in
      if has_id vid sv.revoked
      then (sv, ok (reply err_bad_auth))
      else if not (bytes_eq st.auth_key ak)
      then (sv, ok (reply err_bad_auth))
      else (sv, seal_resp cxof new_aead env vid st.s2c nonce status_ok [])

  -- handleRegister from the sweep on.
  unfoldable pub register_swept :
      Env S A → Bytes → Bytes → Bytes → Bool → Server S × Bool → Server S × Response
  register_swept env vid nonce ak ephemeral (sv, swept) =
      if not swept
      then (sv, ok (reply err_try_later))
      else if leb sv.quotas.max_vaults (length sv.vaults)
      then (sv, seal_resp cxof new_aead env vid (derive_s2c cxof ak) nonce status_quota [])
      else let r = create_vault_locked ops cxof env vid ak ephemeral sv in
        elim r.1 [
          | err e ↦ (r.0, ok (reply err_try_later))
          | ok ref ↦ (r.0, seal_resp cxof new_aead env vid (r.0.heap ref).s2c nonce status_ok [])
        ]

  -- handleRegister where the vault is not served.
  unfoldable pub register_absent :
      Env S A → Bytes → Bytes → Bytes → Bool → Server S → Server S × Response
  unfolding register_swept
  register_absent env vid nonce ak ephemeral sv =
      if has_id vid sv.revoked
      then (sv, ok (reply err_bad_auth))
      else register_swept env vid nonce ak ephemeral (sweep_locked ops env sv)

  -- handleRegister from the lookup on.
  unfoldable pub register_vault :
      Env S A → Bytes → Bytes → Bytes → Bool → Server S → Server S × Response
  unfolding register_present register_absent
  register_vault env vid nonce ak ephemeral sv = elim (lookup vid sv.vaults) [
    | none ↦ register_absent env vid nonce ak ephemeral sv
    | some ref ↦
        if not (expired env.now sv.quotas (sv.heap ref))
        then register_present env vid nonce ak ref sv
        else let r = end_locked ops env vid ref note_expired sv in
          if r.1
          then register_absent env vid nonce ak ephemeral r.0
          else (r.0, ok (reply err_try_later))
  ]

  -- handleRegister
  unfoldable pub handle_register : Env S A → Header → Bytes → Server S → Server S × Response
  unfolding register_vault
  handle_register env h sealed sv = elim (open_any new_aead sv.reg_keys h sealed) [
    | none ↦ (sv, ok (reply err_bad_auth))
    | some payload ↦ elim (parse_register payload) [
      | err e ↦ (sv, ok (reply err_bad_frame))
      | ok (ak, ephemeral) ↦ register_vault env h.vault_id h.nonce ak ephemeral sv
    ]
  ]
