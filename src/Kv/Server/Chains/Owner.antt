-- ===== src/Kv/Server/Chains/Owner.antt =====
-- The owner's operations, Drain and Close as chains of moves.
use repani.Base.{
  ℕ, ◌^◌, ◌<◌, inl, inr, Bool, false, List, [], ◌∷◌, Bytes, Bool-cases, Option-cases, Result-cases,
}
use repani.Kv.Vault.Entry.{Entry}
use repani.Kv.Store.Canonical.{has_id}
use repani.Kv.Server.Maps.{lookup}
use repani.Kv.Server.State.{StoreOps, Server, Env}
use repani.Kv.Server.Lifecycle.{close_loop, close_server, drain}
use repani.Kv.Server.Laws.{StoreLaws, total_size}
use repani.Kv.Server.Pushes.{validate_new}
use repani.Kv.Server.Owner.{ensure_vault, drop_vault, add_to, set_no_push}
use repani.Kv.Server.Moves.{
  Moves, here, touch, flagged, shut, pushed_to, shut_down, then-Moves, one-Move,
}
use repani.Kv.Server.Chains.{Opens, end_locked-Moves, create_vault_locked-Moves}

module _ {S A : Type 0} (cxof : Bytes → Bytes → Bytes) (ops : StoreOps S A) (IsGood : S → Type 0)
    (held : S → List Entry) (Began : List Entry → ℕ → Type 0) where
  abbrev Chain : Server S → Server S → Type 0
  Chain = Moves cxof ops IsGood held Began

  pub ensure_vault-Moves :
      (laws : StoreLaws cxof ops IsGood held) (env : Env S A) (vid ak : Bytes) (sv : Server S)
      → Opens cxof ops IsGood held Began env
      → Chain sv (ensure_vault cxof ops env vid ak sv).0
  unfolding ensure_vault
  ensure_vault-Moves laws env vid ak sv opens = elim (Bool-cases (has_id vid sv.revoked)) [
    | inl r ↦ rw r here
    | inr r ↦ elim (Option-cases (lookup vid sv.vaults)) [
      | inr (ref, l) ↦ rw (ensure_vault, r, l) here
      | inl l ↦
          rw (ensure_vault, r, l)
            (create_vault_locked-Moves cxof ops IsGood held Began laws env vid ak false sv opens
              (r, l))
    ]
  ]

  pub drop_vault-Moves :
      (env : Env S A) (vid note : Bytes) (sv : Server S)
      → Chain sv (drop_vault cxof ops env vid note sv).0
  unfolding drop_vault
  drop_vault-Moves env vid note sv = elim (Option-cases (lookup vid sv.vaults)) [
    | inl l ↦ rw (drop_vault, l) here
    | inr (ref, l) ↦
        rw (drop_vault, l) (end_locked-Moves cxof ops IsGood held Began env vid ref note sv l)
  ]

  pub add_to-Moves :
      (env : Env S A) (ref : ℕ) (entries : List Entry) (sv : Server S)
      → env.now < 2 ^ 63
      → total_size entries < 2 ^ 63
      → Chain sv (add_to cxof ops env ref entries sv).0
  unfolding add_to
  add_to-Moves env ref entries sv clock small = elim (Bool-cases (sv.heap ref).gone) [
    | inl g ↦ rw (add_to, g) here
    | inr g ↦
        elim (Result-cases (validate_new cxof ops env.now sv.quotas (sv.heap ref) entries false)) [
          | inr (x, v) ↦ simp (add_to, g, v) here
          | inl (news, v) ↦
              simp (add_to, g, v)
                (one-Move (
                  touch sv ref _ (
                    pushed_to (sv.heap ref) env.now false entries env.answer news g clock small v)))
        ]
  ]

  pub set_no_push-Moves :
      (vid : Bytes) (v : Bool) (sv : Server S) → Chain sv (set_no_push vid v sv).0
  unfolding set_no_push
  set_no_push-Moves vid v sv = elim (Option-cases (lookup vid sv.vaults)) [
    | inl l ↦ rw (set_no_push, l) here
    | inr (ref, l) ↦ rw (set_no_push, l) (one-Move (touch sv ref _ (flagged (sv.heap ref) v)))
  ]

  close_loop-Moves : (vs : List (Bytes × ℕ)) (sv : Server S) → Chain sv (close_loop ops vs sv)
  unfolding close_loop
  close_loop-Moves [] sv = here
  close_loop-Moves (v ∷ vs) sv =
      then-Moves (one-Move (touch sv v.1 _ (shut (sv.heap v.1)))) (close_loop-Moves vs _)

  pub drain-Moves : (sv : Server S) → Chain sv (drain sv)
  unfolding drain
  drain-Moves sv = one-Move (shut_down sv)

  pub close_server-Moves : (sv : Server S) → Chain sv (close_server ops sv)
  unfolding close_server
  close_server-Moves sv = then-Moves (drain-Moves sv) (close_loop-Moves sv.vaults (drain sv))
