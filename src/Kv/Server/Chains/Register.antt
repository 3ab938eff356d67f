-- ===== src/Kv/Server/Chains/Register.antt =====
-- REGISTER as a chain of moves.
use repani.Base.{
  ℕ, ◌≡◌, inl, inr, refl, ap, Bool, true, false, List, [], ◌∷◌, Bytes, length, leb, Bool-cases,
  Option, none, some, Option-cases, Result-cases,
}
use repani.Kv.Vault.Aead.{Aead}
use repani.Kv.Vault.Entry.{Entry}
use repani.Kv.Store.Canonical.{has_id, has_id-cons, bytes_eq, bytes_eq_iff}
use repani.Kv.Wire.Frame.{Header}
use repani.Kv.Wire.Register.{parse_register}
use repani.Kv.Server.Maps.{lookup, delete, lookup-delete, bytes_eq_refl}
use repani.Kv.Server.State.{StoreOps, Server, Env, expired}
use repani.Kv.Server.Lifecycle.{
  note_expired, revoke, end_locked, end_if_expired, sweep_loop, sweep_locked, create_vault_locked,
}
use repani.Kv.Server.Laws.{StoreLaws}
use repani.Kv.Server.Register.{
  register_present, register_swept, register_absent, register_vault, handle_register, open_any,
}
use repani.Kv.Server.Moves.{Moves, here, then-Moves}
use repani.Kv.Server.Chains.{
  Opens, IsFree, end_locked-Moves, sweep_locked-Moves, create_vault_locked-Moves,
}

module _ {S A : Type 0} (cxof : Bytes → Bytes → Bytes) (ops : StoreOps S A) (IsGood : S → Type 0)
    (held : S → List Entry) (Began : List Entry → ℕ → Type 0) where
  abbrev Chain : Server S → Server S → Type 0
  Chain = Moves cxof ops IsGood held Began

  other_vault :
      (vid vid' : Bytes) (ref : ℕ) (sv : Server S)
      → lookup vid sv.vaults ≡ none
      → lookup vid' sv.vaults ≡ some ref
      → bytes_eq vid' vid ≡ false
  other_vault vid vid' ref sv l l' = elim (Bool-cases (bytes_eq vid' vid)) [
    | inr e ↦ e
    | inl e ↦
        let same : lookup vid' sv.vaults ≡ lookup vid sv.vaults =
          ap (λ v. lookup v sv.vaults) ((bytes_eq_iff vid' vid).0 e) in
        absurd (cc)
  ]

  revoke-IsFree :
      (vid vid' : Bytes) (ref : ℕ) (sv : Server S)
      → IsFree cxof ops IsGood held Began vid sv
      → lookup vid' sv.vaults ≡ some ref
      → IsFree cxof ops IsGood held Began vid (revoke ops vid' ref sv)
  unfolding revoke
  revoke-IsFree vid vid' ref sv (r, l) l' =
      let other = other_vault vid vid' ref sv l l' in
      (
        rw (has_id-cons vid vid' sv.revoked, other) r,
        rw (lookup-delete vid' vid sv.vaults, other) l,
      )

  end_locked-IsFree :
      (env : Env S A) (vid vid' : Bytes) (ref : ℕ) (note : Bytes) (sv : Server S)
      → IsFree cxof ops IsGood held Began vid sv
      → lookup vid' sv.vaults ≡ some ref
      → IsFree cxof ops IsGood held Began vid (end_locked ops env vid' ref note sv).0
  unfolding end_locked
  end_locked-IsFree env vid vid' ref note sv f l' =
      let ended = revoke-IsFree vid vid' ref sv f l' in
      elim (Option-cases (sv.heap ref).dir) [
        | inl e ↦ rw (end_locked, e) ended
        | inr (d, e) ↦ elim (Bool-cases (env.writes d)) [
          | inl w ↦ rw (end_locked, e, w) ended
          | inr w ↦ rw (end_locked, e, w) f
        ]
      ]

  end_if_expired-IsFree :
      (env : Env S A) (vid vid' : Bytes) (ref : ℕ) (sv : Server S)
      → IsFree cxof ops IsGood held Began vid sv
      → lookup vid' sv.vaults ≡ some ref
      → IsFree cxof ops IsGood held Began vid (end_if_expired ops env vid' ref sv).0
  unfolding end_if_expired
  end_if_expired-IsFree env vid vid' ref sv f l' =
      elim (Bool-cases (expired env.now sv.quotas (sv.heap ref))) [
        | inl e ↦ rw e (end_locked-IsFree env vid vid' ref note_expired sv f l')
        | inr e ↦ rw e f
      ]

  sweep_loop-IsFree :
      (env : Env S A) (vid : Bytes) (vids : List Bytes) (sv : Server S)
      → IsFree cxof ops IsGood held Began vid sv
      → IsFree cxof ops IsGood held Began vid (sweep_loop ops env vids sv).0
  unfolding sweep_loop
  sweep_loop-IsFree env vid [] sv f = f
  sweep_loop-IsFree env vid (v ∷ vids) sv f = elim (Option-cases (lookup v sv.vaults)) [
    | inl e ↦ rw (sweep_loop, e) (sweep_loop-IsFree env vid vids sv f)
    | inr (ref, e) ↦
        let r = end_if_expired ops env v ref sv in
        let g = end_if_expired-IsFree env vid v ref sv f e in
        elim (Bool-cases r.1) [
          | inl w ↦ rw (sweep_loop, e, w) (sweep_loop-IsFree env vid vids r.0 g)
          | inr w ↦ rw (sweep_loop, e, w) g
        ]
  ]

  -- A sweep leaves an identifier free that was free before it.
  pub sweep_locked-IsFree :
      (env : Env S A) (vid : Bytes) (sv : Server S)
      → IsFree cxof ops IsGood held Began vid sv
      → IsFree cxof ops IsGood held Began vid (sweep_locked ops env sv).0
  unfolding sweep_locked
  sweep_locked-IsFree env vid sv f = sweep_loop-IsFree env vid _ sv f

  end_locked_gone :
      (env : Env S A) (vid : Bytes) (ref : ℕ) (note : Bytes) (sv : Server S)
      → (end_locked ops env vid ref note sv).1 ≡ true
      → lookup vid (end_locked ops env vid ref note sv).0.vaults ≡ none
  unfolding end_locked revoke
  end_locked_gone env vid ref note sv h =
      let deleted : lookup vid (delete vid sv.vaults) ≡ none =
        rw (lookup-delete vid vid sv.vaults, bytes_eq_refl vid) refl in
      elim (Option-cases (sv.heap ref).dir) [
        | inl e ↦ rw (end_locked, e) deleted
        | inr (d, e) ↦ elim (Bool-cases (env.writes d)) [
          | inl w ↦ rw (end_locked, e, w) deleted
          | inr w ↦ absurd (cc (rw (end_locked, e, w) at h))
        ]
      ]

  module _ (new_aead : Bytes → Option Aead) (laws : StoreLaws cxof ops IsGood held) (env : Env S A)
      (opens : Opens cxof ops IsGood held Began env) where
    register_swept-Moves :
        (vid nonce ak : Bytes) (ephemeral : Bool) (r : Server S × Bool)
        → IsFree cxof ops IsGood held Began vid r.0
        → Chain r.0 (register_swept cxof new_aead ops env vid nonce ak ephemeral r).0
    unfolding register_swept
    register_swept-Moves vid nonce ak ephemeral (sv, false) f = here
    register_swept-Moves vid nonce ak ephemeral (sv, true) f =
        elim (Bool-cases (leb sv.quotas.max_vaults (length sv.vaults))) [
          | inl full ↦ rw (register_swept, full) here
          | inr room ↦
              let made =
                create_vault_locked-Moves cxof ops IsGood held Began laws env vid ak ephemeral sv
                  opens f in
              elim (Result-cases (create_vault_locked ops cxof env vid ak ephemeral sv).1) [
                | inl (ref, e) ↦ rw (register_swept, room, e) made
                | inr (x, e) ↦ rw (register_swept, room, e) made
              ]
        ]

    register_absent-Moves :
        (vid nonce ak : Bytes) (ephemeral : Bool) (sv : Server S)
        → lookup vid sv.vaults ≡ none
        → Chain sv (register_absent cxof new_aead ops env vid nonce ak ephemeral sv).0
    unfolding register_absent
    register_absent-Moves vid nonce ak ephemeral sv l = elim (Bool-cases (has_id vid sv.revoked)) [
      | inl r ↦ rw r here
      | inr r ↦ rw r (
          then-Moves (sweep_locked-Moves cxof ops IsGood held Began env sv) (
            register_swept-Moves vid nonce ak ephemeral (sweep_locked ops env sv)
              (sweep_locked-IsFree env vid sv (r, l))))
    ]

    register_present-Moves :
        (vid nonce ak : Bytes) (ref : ℕ) (sv : Server S)
        → Chain sv (register_present cxof new_aead ops env vid nonce ak ref sv).0
    unfolding register_present
    register_present-Moves vid nonce ak ref sv = elim (Bool-cases (has_id vid sv.revoked)) [
      | inl r ↦ rw r here
      | inr r ↦ elim (Bool-cases (bytes_eq (sv.heap ref).auth_key ak)) [
        | inl e ↦ rw (r, e) here
        | inr e ↦ rw (r, e) here
      ]
    ]

    pub register_vault-Moves :
        (vid nonce ak : Bytes) (ephemeral : Bool) (sv : Server S)
        → Chain sv (register_vault cxof new_aead ops env vid nonce ak ephemeral sv).0
    unfolding register_vault
    register_vault-Moves vid nonce ak ephemeral sv = elim (Option-cases (lookup vid sv.vaults)) [
      | inl l ↦ rw (register_vault, l) (register_absent-Moves vid nonce ak ephemeral sv l)
      | inr (ref, l) ↦ elim (Bool-cases (expired env.now sv.quotas (sv.heap ref))) [
        | inr fresh ↦ rw (register_vault, l, fresh) (register_present-Moves vid nonce ak ref sv)
        | inl old ↦
            let r = end_locked ops env vid ref note_expired sv in
            let ended = end_locked-Moves cxof ops IsGood held Began env vid ref note_expired sv l in
            elim (Bool-cases r.1) [
              | inr e ↦ rw (register_vault, l, old, e) ended
              | inl e ↦
                  rw (register_vault, l, old, e)
                    (then-Moves ended (
                      register_absent-Moves vid nonce ak ephemeral r.0
                        (end_locked_gone env vid ref note_expired sv e)))
            ]
      ]
    ]

    pub handle_register-Moves :
        (h : Header) (sealed : Bytes) (sv : Server S)
        → Chain sv (handle_register cxof new_aead ops env h sealed sv).0
    unfolding handle_register
    handle_register-Moves h sealed sv =
        elim (Option-cases (open_any new_aead sv.reg_keys h sealed)) [
          | inl e ↦ rw (handle_register, e) here
          | inr (payload, e) ↦ elim (Result-cases (parse_register payload)) [
            | inl ((ak, ephemeral), p) ↦
                rw (handle_register, e, p) (register_vault-Moves h.vault_id h.nonce ak ephemeral sv)
            | inr (x, p) ↦ rw (handle_register, e, p) here
          ]
        ]
