-- ===== src/Kv/Server/Requests.antt =====
-- A request's way from the client that sealed it to the operation on its vault.
use repani.Base.{ℕ, ◌≡◌, refl, ap, true, false, Bytes, IsByte, All, ◌==◌, Option, some, ok, arith}
use repani.Kv.Vault.Aead.{Aead}
use repani.Kv.Wire.Frame.{Header, IsHeader, seal_frame, open_frame}
use repani.Kv.Wire.Frame.RoundTrip.{open_frame-seal_frame}
use repani.Kv.Wire.Sync.{SyncReq, IsReq, marshal}
use repani.Kv.Wire.Sync.RoundTrip.{parse_sync-marshal}
use repani.Kv.Server.Maps.{lookup}
use repani.Kv.Server.State.{StoreOps, Server, Env, expired}
use repani.Kv.Server.Lifecycle.{expire_if_due}
use repani.Kv.Server.Replies.{kind_sync, kind_register}
use repani.Kv.Server.Frames.{
  admitted, admit_opened, admit, perform, after_admission, handle_sync, handle_frame,
}

module _ {S A : Type 0} (cxof : Bytes → Bytes → Bytes) (new_aead : Bytes → Option Aead)
    (ops : StoreOps S A) where
  handle_sync-admitted :
      (env : Env S A) (h : Header) (body : Bytes) (req : SyncReq) (ref : ℕ) (sv : Server S)
      → admit cxof new_aead ops env h body sv ≡ (sv, admitted ref req)
      → handle_sync cxof new_aead ops env h body sv
        ≡ perform cxof new_aead ops env h.vault_id h.nonce ref req sv
  unfolding handle_sync after_admission
  handle_sync-admitted env h body req ref sv e = ap (after_admission cxof new_aead ops env h) e

  admit-marshal :
      (env : Env S A) (h : Header) (body : Bytes) (req : SyncReq) (ref : ℕ) (sv : Server S)
      → lookup h.vault_id sv.vaults ≡ some ref
      → expired env.now sv.quotas (sv.heap ref) ≡ false
      → IsReq req
      → open_frame new_aead (sv.heap ref).c2s h body ≡ ok (marshal req)
      → admit cxof new_aead ops env h body sv ≡ (sv, admitted ref req)
  unfolding admit admit_opened expire_if_due
  admit-marshal env h body req ref sv served young valid opened =
      simp (admit, served, opened, admit_opened, expire_if_due, young, parse_sync-marshal req valid)
        refl

  -- A request that a client marshals and seals under the c2s key of a served vault that is not due to
  -- expire is served on that vault's state: HandleFrame does with the frame what the operation does with
  -- the request.
  pub handle_frame-marshal :
      (env : Env S A) (h : Header) (req : SyncReq) (frame : Bytes) (ref : ℕ) (sv : Server S)
      → IsHeader h
      → h.kind ≡ kind_sync
      → lookup h.vault_id sv.vaults ≡ some ref
      → expired env.now sv.quotas (sv.heap ref) ≡ false
      → IsReq req
      → All IsByte (marshal req)
      → seal_frame new_aead h (sv.heap ref).c2s (marshal req) ≡ ok frame
      → handle_frame cxof new_aead ops env frame sv
        ≡ perform cxof new_aead ops env h.vault_id h.nonce ref req sv
  unfolding handle_frame
  handle_frame-marshal env h req frame ref sv v kind served young valid bytes sealed =
      let (body, parsed, opened) =
        open_frame-seal_frame new_aead h (sv.heap ref).c2s (marshal req) frame v bytes sealed in
      let not_register : (h.kind == kind_register) ≡ false = ground arith in
      let is_sync : (h.kind == kind_sync) ≡ true = ground arith in
      simp (handle_frame, parsed, not_register, is_sync)
        (handle_sync-admitted env h body req ref sv
          (admit-marshal env h body req ref sv served young valid opened))
