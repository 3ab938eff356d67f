-- ===== src/Kv/Server/Chains.antt =====
-- Each operation of kv/server as a chain of moves: the lifecycle of vaults and registration.
pub mod Register
pub mod Sync
pub mod Owner
use repani.Base.{
  ℕ, suc, ◌+◌, ◌^◌, ◌<◌, ◌≡◌, inl, inr, refl, Bool, true, false, not, ◌||◌, ◌&&◌, List, [], ◌∷◌,
  Bytes, length, leb, ◌==◌, if◌then◌else◌, Bool-cases, Option, none, some, Option-cases, Result, ok,
  err, Result-cases, arith,
}
use repani.Kv.Vault.Entry.{Entry}
use repani.Kv.Store.Canonical.{has_id, bytes_eq}
use repani.Kv.Server.Maps.{lookup}
use repani.Kv.Server.State.{
  StoreOps, VaultState, Server, Env, set_state, is_current, expired, new_vault_state,
}
use repani.Kv.Server.Lifecycle.{
  note_expired, revoke, end_locked, end_if_expired, sweep_loop, sweep_locked, expire_if_due,
  created_state, create_in, create_vault_locked,
}
use repani.Kv.Server.Laws.{StoreLaws}
use repani.Kv.Server.Moves.{
  Moves, here, more, Move, touch, end_vault, begin_vault, write_record, IsNew, then-Moves, one-Move,
}

module _ {S A : Type 0} (cxof : Bytes → Bytes → Bytes) (ops : StoreOps S A) (IsGood : S → Type 0)
    (held : S → List Entry) (Began : List Entry → ℕ → Type 0) where
  -- What OpenLogStore opens for a new vault is a good store, with entries that a vault may begin with.
  abbrev pub Opens : Env S A → Type 0
  Opens env =
      (ls : S)
      → env.new_log ≡ some ls
      → IsGood ls × (Began (held ls) 0 × (length (held ls) < 2 ^ 63))

  abbrev pub Chain : Server S → Server S → Type 0
  Chain = Moves cxof ops IsGood held Began

  pub end_locked-Moves :
      (env : Env S A) (vid : Bytes) (ref : ℕ) (note : Bytes) (sv : Server S)
      → lookup vid sv.vaults ≡ some ref
      → Chain sv (end_locked ops env vid ref note sv).0
  unfolding end_locked
  end_locked-Moves env vid ref note sv h =
      let ended = one-Move (end_vault sv vid ref h) in
      elim (Option-cases (sv.heap ref).dir) [
        | inl e ↦ rw (end_locked, e) ended
        | inr (d, e) ↦ elim (Bool-cases (env.writes d)) [
          | inl w ↦ rw (end_locked, e, w) (more ended (write_record _ _))
          | inr w ↦ rw (end_locked, e, w) here
        ]
      ]

  pub end_if_expired-Moves :
      (env : Env S A) (vid : Bytes) (ref : ℕ) (sv : Server S)
      → lookup vid sv.vaults ≡ some ref
      → Chain sv (end_if_expired ops env vid ref sv).0
  unfolding end_if_expired
  end_if_expired-Moves env vid ref sv h =
      elim (Bool-cases (expired env.now sv.quotas (sv.heap ref))) [
        | inl e ↦ rw e (end_locked-Moves env vid ref note_expired sv h)
        | inr e ↦ rw e here
      ]

  sweep_loop-Moves :
      (env : Env S A) (vids : List Bytes) (sv : Server S) → Chain sv (sweep_loop ops env vids sv).0
  unfolding sweep_loop
  sweep_loop-Moves env [] sv = here
  sweep_loop-Moves env (vid ∷ vids) sv = elim (Option-cases (lookup vid sv.vaults)) [
    | inl e ↦ rw (sweep_loop, e) (sweep_loop-Moves env vids sv)
    | inr (ref, e) ↦
        let r = end_if_expired ops env vid ref sv in
        let first = end_if_expired-Moves env vid ref sv e in
        elim (Bool-cases r.1) [
          | inl w ↦ rw (sweep_loop, e, w) (then-Moves first (sweep_loop-Moves env vids r.0))
          | inr w ↦ rw (sweep_loop, e, w) first
        ]
  ]

  pub sweep_locked-Moves : (env : Env S A) (sv : Server S) → Chain sv (sweep_locked ops env sv).0
  unfolding sweep_locked
  sweep_locked-Moves env sv = sweep_loop-Moves env _ sv

  pub current_lookup :
      (vid : Bytes) (ref : ℕ) (sv : Server S)
      → is_current vid ref sv ≡ true
      → lookup vid sv.vaults ≡ some ref
  unfolding is_current
  current_lookup vid ref sv h = elim (Option-cases (lookup vid sv.vaults)) [
    | inl e ↦ absurd (cc (rw (is_current, e) at h))
    | inr (r, e) ↦ ground arith
  ]

  pub expire_if_due-Moves :
      (env : Env S A) (vid : Bytes) (ref : ℕ) (sv : Server S)
      → Chain sv (expire_if_due ops env vid ref sv).0
  unfolding expire_if_due
  expire_if_due-Moves env vid ref sv = elim (Bool-cases (expired env.now sv.quotas (sv.heap ref))) [
    | inr e ↦ rw e here
    | inl e ↦ elim (Bool-cases (is_current vid ref sv)) [
      | inr c ↦ rw (e, c) here
      | inl c ↦
          rw (e, c) (end_locked-Moves env vid ref note_expired sv (current_lookup vid ref sv c))
    ]
  ]

  abbrev pub IsFree : Bytes → Server S → Type 0
  IsFree vid sv = (has_id vid sv.revoked ≡ false) × (lookup vid sv.vaults ≡ none)

  module _ (laws : StoreLaws cxof ops IsGood held) where
    create_in-Moves :
        (disk : Bool) (env : Env S A) (vid ak : Bytes) (ephemeral : Bool) (sv : Server S)
        → Opens env
        → IsFree vid sv
        → Chain sv (create_in ops disk cxof env vid ak ephemeral sv).0
    unfolding create_in created_state new_vault_state
    create_in-Moves false env vid ak ephemeral sv opens (r, l) = one-Move (
        begin_vault sv vid _ r l (record {
          store_good = laws.new_good;
          store_began = inl laws.new_held;
          made = (_, _, _, refl);
        }))
    create_in-Moves true env vid ak ephemeral sv opens (r, l) = elim (Bool-cases env.makes_dir) [
      | inr m ↦ rw (create_in, m) here
      | inl m ↦ elim (Bool-cases (env.writes vid)) [
        | inr w ↦ rw (create_in, m, w) here
        | inl w ↦ elim (Option-cases env.new_log) [
          | inl n ↦ rw (create_in, m, w, n) (one-Move (write_record sv _))
          | inr (ls, n) ↦
              let (good, began) = opens ls n in
              rw (create_in, m, w, n)
                (more (one-Move (write_record sv _)) (
                  begin_vault _ vid _ r l (record {
                    store_good = good;
                    store_began = inr began;
                    made = (_, _, _, refl);
                  })))
        ]
      ]
    ]

    pub create_vault_locked-Moves :
        (env : Env S A) (vid ak : Bytes) (ephemeral : Bool) (sv : Server S)
        → Opens env
        → IsFree vid sv
        → Chain sv (create_vault_locked ops cxof env vid ak ephemeral sv).0
    unfolding create_vault_locked
    create_vault_locked-Moves env vid ak ephemeral sv =
        create_in-Moves sv.on_disk env vid ak ephemeral sv
