-- ===== src/Kv/Server/Chains/Sync.antt =====
-- SYNC, the end of a WAIT, and the owner's operations as chains of moves.
use repani.Base.{
  ℕ, ◌^◌, ◌<◌, ◌≡◌, inl, inr, true, false, ◌&&◌, List, Bytes, length, ltb, ◌==◌, Bool-cases, Option,
  Option-cases, Result-cases,
}
use repani.Kv.Vault.Aead.{Aead}
use repani.Kv.Vault.Entry.{Entry}
use repani.Kv.Store.Canonical.{bytes_eq}
use repani.Kv.Wire.Frame.{Header, open_frame}
use repani.Kv.Wire.Sync.{SyncReq, parse_sync, op_probe, op_pull, op_push, op_drop, op_wait}
use repani.Kv.Server.Maps.{lookup}
use repani.Kv.Server.Quotas.{Quotas}
use repani.Kv.Server.State.{StoreOps, VaultState, Server, Env, set_state, is_current}
use repani.Kv.Server.Lifecycle.{note_dropped, expire_if_due}
use repani.Kv.Server.Laws.{total_size}
use repani.Kv.Server.Pushes.{validate_new}
use repani.Kv.Server.Frames.{
  admit_opened, admit, serve_locked, handle_drop, handle_wait, wake, perform, Held,
}
use repani.Kv.Server.Replies.{seal_resp}
use repani.Kv.Server.Serve.{serve_push, serve_op}
use repani.Kv.Server.Moves.{
  Moves, here, more, touch, Touch, left_alone, hashed, pushed_to, call_hook, one-Move,
}
use repani.Kv.Server.Chains.{end_locked-Moves, expire_if_due-Moves, current_lookup}

module _ {S A : Type 0} (cxof : Bytes → Bytes → Bytes) (ops : StoreOps S A) (IsGood : S → Type 0)
    (held : S → List Entry) (Began : List Entry → ℕ → Type 0) (new_aead : Bytes → Option Aead) where
  abbrev Chain : Server S → Server S → Type 0
  Chain = Moves cxof ops IsGood held Began

  admit_opened-Moves :
      (env : Env S A) (h : Header) (payload : Bytes) (ref : ℕ) (sv : Server S)
      → Chain sv (admit_opened cxof new_aead ops env h payload ref sv).0
  unfolding admit_opened
  admit_opened-Moves env h payload ref sv =
      let due = expire_if_due-Moves cxof ops IsGood held Began env h.vault_id ref sv in
      elim (Bool-cases (expire_if_due ops env h.vault_id ref sv).1) [
        | inl e ↦ rw (admit_opened, e) due
        | inr e ↦ elim (Result-cases (parse_sync payload)) [
          | inl (req, p) ↦ rw (admit_opened, e, p) due
          | inr (x, p) ↦ rw (admit_opened, e, p) due
        ]
      ]

  pub admit-Moves :
      (env : Env S A) (h : Header) (sealed : Bytes) (sv : Server S)
      → Chain sv (admit cxof new_aead ops env h sealed sv).0
  unfolding admit
  admit-Moves env h sealed sv = elim (Option-cases (lookup h.vault_id sv.vaults)) [
    | inl l ↦ rw (admit, l) here
    | inr (ref, l) ↦ elim (Result-cases (open_frame new_aead (sv.heap ref).c2s h sealed)) [
      | inr (x, o) ↦ rw (admit, l, o) here
      | inl (payload, o) ↦ rw (admit, l, o) (admit_opened-Moves env h payload ref sv)
    ]
  ]

  abbrev TouchOf : Server S → ℕ → VaultState S → Type 0
  TouchOf sv ref st = Touch cxof ops IsGood held sv.quotas (sv.heap ref) st

  set_state-Moves :
      (sv : Server S) (ref : ℕ) (st : VaultState S)
      → TouchOf sv ref st
      → Chain sv (set_state ref st sv)
  set_state-Moves sv ref st t = one-Move (touch sv ref st t)

  serve_push-Touch :
      (env : Env S A) (quotas : Quotas) (pushes : List Entry) (st : VaultState S)
      → st.gone ≡ false
      → env.now < 2 ^ 63
      → total_size pushes < 2 ^ 63
      → Touch cxof ops IsGood held quotas st (serve_push cxof ops env quotas pushes st).0
  unfolding serve_push
  serve_push-Touch env quotas pushes st g clock small =
      elim (Result-cases (validate_new cxof ops env.now quotas st pushes true)) [
        | inr (x, v) ↦ rw (serve_push, v) (left_alone st)
        | inl (news, v) ↦ elim (Bool-cases (st.no_push && ltb 0 (length news))) [
          | inl n ↦ rw (serve_push, v, n) (left_alone st)
          | inr n ↦
              rw (serve_push, v, n)
                (pushed_to st env.now true pushes env.answer news g clock small v)
        ]
      ]

  serve_op-Touch :
      (env : Env S A) (quotas : Quotas) (req : SyncReq) (st : VaultState S)
      → st.gone ≡ false
      → env.now < 2 ^ 63
      → total_size req.entries < 2 ^ 63
      → Touch cxof ops IsGood held quotas st (serve_op cxof ops env quotas req st).0
  unfolding serve_op
  serve_op-Touch env quotas req st g clock small = elim (Bool-cases (req.op == op_probe)) [
    | inl p ↦ rw p (hashed st)
    | inr p ↦ elim (Bool-cases (req.op == op_pull)) [
      | inl l ↦ rw (p, l) (left_alone st)
      | inr l ↦ elim (Bool-cases (req.op == op_push)) [
        | inl s ↦ rw (p, l, s) (serve_push-Touch env quotas req.entries st g clock small)
        | inr s ↦ rw (p, l, s) (left_alone st)
      ]
    ]
  ]

  serve_locked-Moves :
      (env : Env S A) (vid nonce : Bytes) (ref : ℕ) (req : SyncReq) (sv : Server S)
      → env.now < 2 ^ 63
      → total_size req.entries < 2 ^ 63
      → Chain sv (serve_locked cxof new_aead ops env vid nonce ref req sv).0
  unfolding serve_locked
  serve_locked-Moves env vid nonce ref req sv clock small = elim (Bool-cases (sv.heap ref).gone) [
    | inl g ↦ simp (serve_locked, g) here
    | inr g ↦
        let moved =
          set_state-Moves sv ref _ (serve_op-Touch env sv.quotas req (sv.heap ref) g clock small) in
        elim (Option-cases (serve_op cxof ops env sv.quotas req (sv.heap ref)).1) [
          | inl o ↦ simp (serve_locked, g, o) moved
          | inr (out, o) ↦
              elim (Result-cases
                (seal_resp cxof new_aead env vid (sv.heap ref).s2c nonce out.status out.page)) [
                  | inr (x, r) ↦ simp (serve_locked, g, o, r) moved
                  | inl (frame, r) ↦ elim (Bool-cases (ltb 0 out.pushed && sv.on_push)) [
                    | inl n ↦ simp (serve_locked, g, o, r, n) (more moved (call_hook _ _))
                    | inr n ↦ simp (serve_locked, g, o, r, n) moved
                  ]
                ]
        ]
  ]

  handle_drop-Moves :
      (env : Env S A) (vid nonce : Bytes) (ref : ℕ) (sv : Server S)
      → Chain sv (handle_drop cxof new_aead ops env vid nonce ref sv).0
  unfolding handle_drop
  handle_drop-Moves env vid nonce ref sv = elim (Bool-cases (sv.heap ref).ephemeral) [
    | inr e ↦ rw e here
    | inl e ↦ elim (Bool-cases (is_current vid ref sv)) [
      | inr c ↦ rw (e, c) here
      | inl c ↦
          rw (e, c)
            (end_locked-Moves cxof ops IsGood held Began env vid ref note_dropped sv
              (current_lookup cxof ops IsGood held Began vid ref sv c))
    ]
  ]

  handle_wait-Moves :
      (env : Env S A) (vid nonce : Bytes) (ref : ℕ) (want : Bytes) (sv : Server S)
      → Chain sv (handle_wait cxof new_aead ops env vid nonce ref want sv).0
  unfolding handle_wait
  handle_wait-Moves env vid nonce ref want sv = elim (Bool-cases (sv.heap ref).gone) [
    | inl g ↦ simp g here
    | inr g ↦ elim (Bool-cases (sv.heap ref).closed) [
      | inl c ↦ simp (g, c) here
      | inr c ↦
          let moved = set_state-Moves sv ref _ (hashed (sv.heap ref)) in
          elim (Bool-cases (bytes_eq (ops.set_hash (sv.heap ref).s).1 want)) [
            | inl b ↦ simp (g, c, b) moved
            | inr b ↦ simp (g, c, b) moved
          ]
    ]
  ]

  pub wake-Moves :
      (env : Env S A) (w : Held) (sv : Server S) → Chain sv (wake cxof new_aead ops env w sv).0
  unfolding wake
  wake-Moves env w sv = elim (Bool-cases (sv.heap w.ref).gone) [
    | inl g ↦ simp g here
    | inr g ↦ elim (Bool-cases (sv.heap w.ref).closed) [
      | inl c ↦ simp (g, c) here
      | inr c ↦ simp (g, c) (set_state-Moves sv w.ref _ (hashed (sv.heap w.ref)))
    ]
  ]

  pub perform-Moves :
      (env : Env S A) (vid nonce : Bytes) (ref : ℕ) (req : SyncReq) (sv : Server S)
      → env.now < 2 ^ 63
      → total_size req.entries < 2 ^ 63
      → Chain sv (perform cxof new_aead ops env vid nonce ref req sv).0
  unfolding perform
  perform-Moves env vid nonce ref req sv clock small = elim (Bool-cases (req.op == op_drop)) [
    | inl d ↦ rw d (handle_drop-Moves env vid nonce ref sv)
    | inr d ↦ elim (Bool-cases (req.op == op_wait)) [
      | inl w ↦ rw (d, w) (handle_wait-Moves env vid nonce ref req.set_hash sv)
      | inr w ↦ rw (d, w) (serve_locked-Moves env vid nonce ref req sv clock small)
    ]
  ]
