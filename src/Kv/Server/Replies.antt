-- ===== src/Kv/Server/Replies.antt =====
-- kv/server/server.go: the frames that answer a request.
use repani.Base.{ℕ, List, Bytes, Option, none, some, Result, ok, err}
use repani.Kv.Vault.Aead.{Aead}
use repani.Kv.Vault.Entry.{Entry}
use repani.Kv.Vault.Keys.{frame_nonce}
use repani.Kv.Wire.Frame.{seal_frame}
use repani.Kv.Wire.Resp as Resp
use repani.Kv.Wire.Resp.{status_ok, status_differ, status_quota, status_bad_request}
use repani.Kv.Server.State.{Env, ServeError, no_random, wire_failed}

-- wire.KindRegister, KindSync and KindResp
abbrev pub kind_register : ℕ
kind_register = 0x01

abbrev pub kind_sync : ℕ
kind_sync = 0x02

abbrev pub kind_resp : ℕ
kind_resp = 0x03

-- A response, or the error that prevents one.
abbrev pub Response : Type 0
Response = Result ServeError Bytes

module _ {S A : Type 0} (cxof : Bytes → Bytes → Bytes) (new_aead : Bytes → Option Aead) where
  -- sealResp
  unfoldable pub seal_resp : Env S A → Bytes → Bytes → Bytes → ℕ → List Entry → Response
  seal_resp env vid s2c req_nonce status entries =
      elim (frame_nonce cxof vid env.unix_nano env.random) [
        | none ↦ err no_random
        | some nonce ↦
            let payload =
              Resp.marshal (record { status = status; req_nonce = req_nonce; entries = entries }) in
            elim (seal_frame new_aead (record { kind = kind_resp; vault_id = vid; nonce = nonce })
              s2c payload) [ err e ↦ err (wire_failed e) | ok frame ↦ ok frame ]
      ]
