-- ===== src/Kv/Server/Serve.antt =====
-- kv/server/server.go: PROBE, PULL and PUSH, as they change one vault's state.
use repani.Base.{
  ℕ, ◌==◌, true, ◌&&◌, List, [], Bytes, length, ltb, if◌then◌else◌, Option, none, some, ok, err,
  ◌*◌,
}
use repani.Kv.Vault.Entry.{Entry}
use repani.Kv.Store.Canonical.{bytes_eq}
use repani.Kv.Wire.Sync.{SyncReq, op_probe, op_pull, op_push}
use repani.Kv.Wire.Resp.{status_ok, status_differ, status_quota, status_bad_request}
use repani.Kv.Server.Quotas.{Quotas}
use repani.Kv.Server.State.{StoreOps, VaultState, Env, with_store}
use repani.Kv.Server.Pushes.{Refusal, quota, skew, validate_new, add_validated_locked}

-- wire.PageBytes
abbrev pub page_bytes : ℕ
page_bytes = 256 * 1024

-- What an operation under the vault's lock comes to: the status, the page and the entries pushed.
pub record Served : Type 0 where
  pub status : ℕ
  pub page : List Entry
  pub pushed : ℕ

abbrev pub served : ℕ → Served
served status = record { status = status; page = []; pushed = 0 }

-- The status of a refused push.
abbrev pub refusal_status : Refusal → ℕ
refusal_status quota = status_quota
refusal_status skew = status_bad_request

module _ {S A : Type 0} (cxof : Bytes → Bytes → Bytes) (ops : StoreOps S A) where
  -- OpPush. none is the store's error.
  unfoldable pub serve_push :
      Env S A → Quotas → List Entry → VaultState S → VaultState S × Option Served
  serve_push env quotas pushes st = elim (validate_new cxof ops env.now quotas st pushes true) [
    | err r ↦ (st, some (served (refusal_status r)))
    | ok news ↦
        if st.no_push && ltb 0 (length news)
        then (st, some (served status_quota))
        else let r = add_validated_locked ops env.answer news st in
          (
            r.0,
            elim r.1 [
              | none ↦ none
              | some n ↦ some (record { status = status_ok; page = []; pushed = n })
            ],
          )
  ]

  -- The switch of handleSync on the operation.
  unfoldable pub serve_op : Env S A → Quotas → SyncReq → VaultState S → VaultState S × Option Served
  unfolding serve_push
  serve_op env quotas req st =
      if req.op == op_probe
      then (let (s', hash) = ops.set_hash st.s in
          (
            with_store s' st,
            some (served (if bytes_eq hash req.set_hash then status_ok else status_differ)),
          ))
      else if req.op == op_pull
      then (
        st,
        some (record {
          status = status_ok;
          page = ops.entries_after req.cur_ts req.cur_id page_bytes st.s;
          pushed = 0;
        }),
      )
      else if req.op == op_push
      then serve_push env quotas req.entries st
      else (st, some (served status_bad_request))
