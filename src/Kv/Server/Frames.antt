-- ===== src/Kv/Server/Frames.antt =====
-- kv/server/server.go: HandleFrame. SYNC is served in two steps, as the server holds its mutex: `admit`
-- looks the vault up, and `perform` serves the request on the state found; other requests may come
-- between them. A WAIT is held by the one, and answered by `wake` when one of its four causes fires.
use repani.Base.{
  ℕ, ◌==◌, Bool, true, not, ◌&&◌, [], ◌∷◌, Bytes, ltb, leb, if◌then◌else◌, Option, none, some, ok,
  err,
}
use repani.Kv.Vault.Aead.{Aead}
use repani.Kv.Store.Canonical.{bytes_eq}
use repani.Kv.Wire.Errors.{version}
use repani.Kv.Wire.PreChannel.{
  reply, err_bad_frame, err_bad_version, err_bad_kind, err_unknown_vault, err_bad_auth,
  err_try_later,
}
use repani.Kv.Wire.Frame.{Header, parse_header, open_frame}
use repani.Kv.Wire.Sync.{SyncReq, parse_sync, op_drop, op_wait}
use repani.Kv.Wire.Resp.{status_ok, status_differ, status_bad_request}
use repani.Kv.Server.Maps.{lookup}
use repani.Kv.Server.State.{StoreOps, Server, Env, store_failed, set_state, is_current, with_store}
use repani.Kv.Server.Lifecycle.{note_dropped, end_locked, expire_if_due}
use repani.Kv.Server.Replies.{Response, seal_resp, kind_register, kind_sync}
use repani.Kv.Server.Register.{handle_register}
use repani.Kv.Server.Serve.{serve_op}

-- A WAIT held open: what handleWait keeps while it holds no lock.
pub record Held : Type 0 where
  pub vault_id : Bytes
  pub ref : ℕ
  pub nonce : Bytes
  pub want : Bytes
  pub generation : ℕ

pub data Outcome : Type 0 where
  answered : Response → Outcome
  held : Held → Outcome

-- What admits a SYNC frame: an answer at once, or the state found and the request.
pub data Admission : Type 0 where
  refused : Response → Admission
  admitted : ℕ → SyncReq → Admission

module _ {S A : Type 0} (cxof : Bytes → Bytes → Bytes) (new_aead : Bytes → Option Aead)
    (ops : StoreOps S A) where
  -- handleSync from the opened payload on, to the request.
  unfoldable pub admit_opened : Env S A → Header → Bytes → ℕ → Server S → Server S × Admission
  admit_opened env h payload ref sv =
      let s2c = (sv.heap ref).s2c in
      let (sv', ended, fine) = expire_if_due ops env h.vault_id ref sv in
      if ended
      then (sv', refused (ok (reply (if fine then err_unknown_vault else err_try_later))))
      else elim (parse_sync payload) [
        | err e ↦ (
          sv',
          refused (seal_resp cxof new_aead env h.vault_id s2c h.nonce status_bad_request []),
        )
        | ok req ↦ (sv', admitted ref req)
      ]

  -- handleSync, up to the request.
  unfoldable pub admit : Env S A → Header → Bytes → Server S → Server S × Admission
  unfolding admit_opened
  admit env h sealed sv = elim (lookup h.vault_id sv.vaults) [
    | none ↦ (sv, refused (ok (reply err_unknown_vault)))
    | some ref ↦ elim (open_frame new_aead (sv.heap ref).c2s h sealed) [
      | err e ↦ (sv, refused (ok (reply err_bad_auth)))
      | ok payload ↦ admit_opened env h payload ref sv
    ]
  ]

  -- The function that handleSync runs under the vault's lock, and OnPush after it.
  unfoldable pub serve_locked :
      Env S A → Bytes → Bytes → ℕ → SyncReq → Server S → Server S × Response
  unfolding serve_op
  serve_locked env vid nonce ref req sv =
      let st = sv.heap ref in
      if st.gone
      then (sv, ok (reply err_unknown_vault))
      else let r = serve_op cxof ops env sv.quotas req st in
        let sv' = set_state ref r.0 sv in
        elim r.1 [
          | none ↦ (sv', err store_failed)
          | some out ↦ elim (seal_resp cxof new_aead env vid st.s2c nonce out.status out.page) [
            | err e ↦ (sv', err e)
            | ok frame ↦ (
              if ltb 0 out.pushed && sv.on_push
                  then record sv' { pushed = vid ∷ sv.pushed }
                  else sv',
              ok frame,
            )
          ]
        ]

  -- handleDrop
  unfoldable pub handle_drop : Env S A → Bytes → Bytes → ℕ → Server S → Server S × Response
  handle_drop env vid nonce ref sv =
      let st = sv.heap ref in
      if not st.ephemeral
      then (sv, seal_resp cxof new_aead env vid st.s2c nonce status_bad_request [])
      else if not (is_current vid ref sv)
      then (sv, ok (reply err_unknown_vault))
      else let r = end_locked ops env vid ref note_dropped sv in
        (
          r.0,
          if r.1
              then seal_resp cxof new_aead env vid st.s2c nonce status_ok []
              else ok (reply err_try_later),
        )

  -- handleWait up to its select.
  unfoldable pub handle_wait : Env S A → Bytes → Bytes → ℕ → Bytes → Server S → Server S × Outcome
  handle_wait env vid nonce ref want sv =
      let st = sv.heap ref in
      if st.gone
      then (sv, answered (ok (reply err_unknown_vault)))
      else if st.closed
      then (sv, answered (seal_resp cxof new_aead env vid st.s2c nonce status_ok []))
      else let (s', hash) = ops.set_hash st.s in
        let sv' = set_state ref (with_store s' st) sv in
        if not (bytes_eq hash want)
        then (sv', answered (seal_resp cxof new_aead env vid st.s2c nonce status_differ []))
        else (
          sv',
          held (record {
            vault_id = vid;
            ref = ref;
            nonce = nonce;
            want = want;
            generation = st.changed;
          }),
        )

  -- handleWait from its select on.
  unfoldable pub wake : Env S A → Held → Server S → Server S × Response
  wake env w sv =
      let st = sv.heap w.ref in
      if st.gone
      then (sv, ok (reply err_unknown_vault))
      else if st.closed
      then (sv, seal_resp cxof new_aead env w.vault_id st.s2c w.nonce status_ok [])
      else let (s', hash) = ops.set_hash st.s in
        (
          set_state w.ref (with_store s' st) sv,
          seal_resp cxof new_aead env w.vault_id st.s2c w.nonce
              (if bytes_eq hash w.want then status_ok else status_differ) [],
        )

  -- handleSync from the request on.
  unfoldable pub perform : Env S A → Bytes → Bytes → ℕ → SyncReq → Server S → Server S × Outcome
  unfolding serve_locked handle_drop handle_wait
  perform env vid nonce ref req sv =
      if req.op == op_drop
      then (let r = handle_drop env vid nonce ref sv in (r.0, answered r.1))
      else if req.op == op_wait
      then handle_wait env vid nonce ref req.set_hash sv
      else (let r = serve_locked env vid nonce ref req sv in (r.0, answered r.1))

  -- handleSync from the admission on.
  unfoldable pub after_admission : Env S A → Header → Server S × Admission → Server S × Outcome
  unfolding perform
  after_admission env h (sv, refused response) = (sv, answered response)
  after_admission env h (sv, admitted ref req) = perform env h.vault_id h.nonce ref req sv

  -- handleSync, with nothing between its steps.
  unfoldable pub handle_sync : Env S A → Header → Bytes → Server S → Server S × Outcome
  unfolding admit after_admission
  handle_sync env h sealed sv = after_admission env h (admit env h sealed sv)

  -- HandleFrame
  unfoldable pub handle_frame : Env S A → Bytes → Server S → Server S × Outcome
  unfolding handle_register handle_sync
  handle_frame env frame sv = elim (parse_header frame) [
    | err version ↦ (sv, answered (ok (reply err_bad_version)))
    | err e ↦ (sv, answered (ok (reply err_bad_frame)))
    | ok (h, sealed) ↦
        if h.kind == kind_register
        then (let r = handle_register cxof new_aead ops env h sealed sv in (r.0, answered r.1))
        else if h.kind == kind_sync
        then handle_sync env h sealed sv
        else (sv, answered (ok (reply err_bad_kind)))
  ]

-- The causes on which the select of handleWait falls through: the vault changed, the server is closing,
-- WaitMaxMs has passed since the WAIT began, or the request was given up.
pub data Cause : Type 0 where
  set_changed shutting_down request_done : Cause
  timed_out : ℕ → Cause

unfoldable pub fires : {S : Type 0} → Cause → Held → Server S → Bool
fires set_changed w sv = not ((sv.heap w.ref).changed == w.generation)
fires shutting_down w sv = sv.closing
fires request_done w sv = true
fires (timed_out elapsed) w sv = leb sv.quotas.wait_max_ms elapsed
