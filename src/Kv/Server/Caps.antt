-- ===== src/Kv/Server/Caps.antt =====
-- MaxVaults: how far REGISTER lets the map of vaults grow.
use repani.Base.{
  ℕ, ◌+◌, ◌≤◌, ◌<◌, ◌≡◌, inl, inr, refl, Bool, true, false, List, [], ◌∷◌, Bytes, length, max, leb,
  Bool-cases, Option, Option-cases, Result-cases, arith,
}
use repani.Kv.Vault.Aead.{Aead}
use repani.Kv.Store.Canonical.{has_id, bytes_eq}
use repani.Kv.Wire.Frame.{Header}
use repani.Kv.Wire.Register.{parse_register}
use repani.Kv.Server.Maps.{lookup, delete, set_key, keys}
use repani.Kv.Server.State.{StoreOps, Server, Env, expired}
use repani.Kv.Server.Lifecycle.{
  note_expired, revoke, end_locked, end_if_expired, sweep_loop, sweep_locked, install, create_in,
  create_vault_locked,
}
use repani.Kv.Server.Register.{
  open_any, register_present, register_swept, register_absent, register_vault, handle_register,
}

length-delete {ℓ} : {V : Type ℓ} (k : Bytes) (m : List (Bytes × V)) → length (delete k m) ≤ length m
unfolding delete
length-delete k [] = omega arith
length-delete k (kv ∷ m) = elim (Bool-cases (bytes_eq kv.0 k)) [
  | inl e ↦ rw e (omega (arith, length-delete k m))
  | inr e ↦ rw e (omega (arith, length-delete k m))
]

module _ {S A : Type 0} (cxof : Bytes → Bytes → Bytes) (new_aead : Bytes → Option Aead)
    (ops : StoreOps S A) where
  -- No more vaults, under the same quotas.
  record Fewer (sv sv' : Server S) : Type 0 where
    fewer : length sv'.vaults ≤ length sv.vaults
    quota : sv'.quotas.max_vaults ≡ sv.quotas.max_vaults

  Fewer-refl : (sv : Server S) → Fewer sv sv
  Fewer-refl sv = record { fewer = omega arith; quota = refl }

  Fewer-trans : (a b c : Server S) → Fewer a b → Fewer b c → Fewer a c
  Fewer-trans a b c f g =
      let f1 = f.fewer in
      let g1 = g.fewer in
      let f2 = f.quota in let g2 = g.quota in record { fewer = omega arith; quota = omega arith }

  end_locked-Fewer :
      (env : Env S A) (vid : Bytes) (ref : ℕ) (note : Bytes) (sv : Server S)
      → Fewer sv (end_locked ops env vid ref note sv).0
  unfolding end_locked revoke
  end_locked-Fewer env vid ref note sv =
      let less = length-delete vid sv.vaults in
      elim (Option-cases (sv.heap ref).dir) [
        | inl e ↦ rw (end_locked, e) (record { fewer = less; quota = refl })
        | inr (d, e) ↦ elim (Bool-cases (env.writes d)) [
          | inl w ↦ rw (end_locked, e, w) (record { fewer = less; quota = refl })
          | inr w ↦ rw (end_locked, e, w) (Fewer-refl sv)
        ]
      ]

  end_if_expired-Fewer :
      (env : Env S A) (vid : Bytes) (ref : ℕ) (sv : Server S)
      → Fewer sv (end_if_expired ops env vid ref sv).0
  unfolding end_if_expired
  end_if_expired-Fewer env vid ref sv =
      elim (Bool-cases (expired env.now sv.quotas (sv.heap ref))) [
        | inl e ↦ rw e (end_locked-Fewer env vid ref note_expired sv)
        | inr e ↦ rw e (Fewer-refl sv)
      ]

  sweep_loop-Fewer :
      (env : Env S A) (vids : List Bytes) (sv : Server S) → Fewer sv (sweep_loop ops env vids sv).0
  unfolding sweep_loop
  sweep_loop-Fewer env [] sv = Fewer-refl sv
  sweep_loop-Fewer env (vid ∷ vids) sv = elim (Option-cases (lookup vid sv.vaults)) [
    | inl e ↦ rw (sweep_loop, e) (sweep_loop-Fewer env vids sv)
    | inr (ref, e) ↦
        let r = end_if_expired ops env vid ref sv in
        let first = end_if_expired-Fewer env vid ref sv in
        elim (Bool-cases r.1) [
          | inl w ↦
              rw (sweep_loop, e, w) (Fewer-trans sv r.0 _ first (sweep_loop-Fewer env vids r.0))
          | inr w ↦ rw (sweep_loop, e, w) first
        ]
  ]

  -- At most the vaults there were, or MaxVaults.
  IsCapped : Server S → Server S → Type 0
  IsCapped sv sv' = length sv'.vaults ≤ max (length sv.vaults) sv.quotas.max_vaults

  create_in-grows :
      (disk : Bool) (env : Env S A) (vid ak : Bytes) (ephemeral : Bool) (sv : Server S)
      → length (create_in ops disk cxof env vid ak ephemeral sv).0.vaults ≤ length sv.vaults + 1
  unfolding create_in install set_key
  create_in-grows false env vid ak ephemeral sv = omega (arith, length-delete vid sv.vaults)
  create_in-grows true env vid ak ephemeral sv =
      let less = length-delete vid sv.vaults in
      elim (Bool-cases env.makes_dir) [
        | inr m ↦ rw (create_in, m) (omega arith)
        | inl m ↦ elim (Bool-cases (env.writes vid)) [
          | inr w ↦ rw (create_in, m, w) (omega arith)
          | inl w ↦ elim (Option-cases env.new_log) [
            | inl n ↦ rw (create_in, m, w, n) (omega arith)
            | inr (ls, n) ↦ rw (create_in, m, w, n) (omega arith)
          ]
        ]
      ]

  register_swept-IsCapped :
      (env : Env S A) (vid nonce ak : Bytes) (ephemeral : Bool) (r : Server S × Bool)
      → IsCapped r.0 (register_swept cxof new_aead ops env vid nonce ak ephemeral r).0
  unfolding register_swept IsCapped create_vault_locked
  register_swept-IsCapped env vid nonce ak ephemeral (sv, false) = omega arith
  register_swept-IsCapped env vid nonce ak ephemeral (sv, true) =
      elim (Bool-cases (leb sv.quotas.max_vaults (length sv.vaults))) [
        | inl full ↦ rw (register_swept, full) (omega arith)
        | inr room ↦
            let grown = create_in-grows sv.on_disk env vid ak ephemeral sv in
            let below : length sv.vaults < sv.quotas.max_vaults = ground arith in
            elim (Result-cases (create_vault_locked ops cxof env vid ak ephemeral sv).1) [
              | inl (ref, e) ↦ rw (register_swept, room, e) (omega arith)
              | inr (x, e) ↦ rw (register_swept, room, e) (omega arith)
            ]
      ]

  Fewer-IsCapped : (a b c : Server S) → Fewer a b → IsCapped b c → IsCapped a c
  unfolding IsCapped
  Fewer-IsCapped a b c f h = let less = f.fewer in let same = f.quota in omega arith

  register_absent-IsCapped :
      (env : Env S A) (vid nonce ak : Bytes) (ephemeral : Bool) (sv : Server S)
      → IsCapped sv (register_absent cxof new_aead ops env vid nonce ak ephemeral sv).0
  unfolding register_absent sweep_locked
  register_absent-IsCapped env vid nonce ak ephemeral sv =
      elim (Bool-cases (has_id vid sv.revoked)) [
        | inl r ↦ rw r (unfold IsCapped in omega arith)
        | inr r ↦ rw r (
            Fewer-IsCapped sv _ _ (sweep_loop-Fewer env (keys sv.vaults) sv)
              (register_swept-IsCapped env vid nonce ak ephemeral (sweep_locked ops env sv)))
      ]

  register_present-IsCapped :
      (env : Env S A) (vid nonce ak : Bytes) (ref : ℕ) (sv : Server S)
      → IsCapped sv (register_present cxof new_aead ops env vid nonce ak ref sv).0
  unfolding register_present IsCapped
  register_present-IsCapped env vid nonce ak ref sv = elim (Bool-cases (has_id vid sv.revoked)) [
    | inl r ↦ rw r (omega arith)
    | inr r ↦ elim (Bool-cases (bytes_eq (sv.heap ref).auth_key ak)) [
      | inl e ↦ rw (r, e) (omega arith)
      | inr e ↦ rw (r, e) (omega arith)
    ]
  ]

  register_vault-IsCapped :
      (env : Env S A) (vid nonce ak : Bytes) (ephemeral : Bool) (sv : Server S)
      → IsCapped sv (register_vault cxof new_aead ops env vid nonce ak ephemeral sv).0
  unfolding register_vault
  register_vault-IsCapped env vid nonce ak ephemeral sv =
      elim (Option-cases (lookup vid sv.vaults)) [
        | inl l ↦ rw (register_vault, l) (register_absent-IsCapped env vid nonce ak ephemeral sv)
        | inr (ref, l) ↦ elim (Bool-cases (expired env.now sv.quotas (sv.heap ref))) [
          | inr young ↦
              rw (register_vault, l, young) (register_present-IsCapped env vid nonce ak ref sv)
          | inl old ↦
              let r = end_locked ops env vid ref note_expired sv in
              let less = end_locked-Fewer env vid ref note_expired sv in
              elim (Bool-cases r.1) [
                | inl e ↦
                    rw (register_vault, l, old, e)
                      (Fewer-IsCapped sv r.0 _ less
                        (register_absent-IsCapped env vid nonce ak ephemeral r.0))
                | inr e ↦
                    rw (register_vault, l, old, e)
                      (Fewer-IsCapped sv r.0 r.0 less (unfold IsCapped in omega arith))
              ]
        ]
      ]

  -- After a REGISTER frame, whatever its answer, the server holds at most the vaults that it held
  -- before, or MaxVaults where that is more.
  pub handle_register_capped :
      (env : Env S A) (h : Header) (sealed : Bytes) (sv : Server S)
      → length (handle_register cxof new_aead ops env h sealed sv).0.vaults
        ≤ max (length sv.vaults) sv.quotas.max_vaults
  unfolding handle_register IsCapped
  handle_register_capped env h sealed sv =
      elim (Option-cases (open_any new_aead sv.reg_keys h sealed)) [
        | inl e ↦ rw (handle_register, e) (omega arith)
        | inr (payload, e) ↦ elim (Result-cases (parse_register payload)) [
          | inl ((ak, ephemeral), p) ↦
              rw (handle_register, e, p)
                (register_vault-IsCapped env h.vault_id h.nonce ak ephemeral sv)
          | inr (x, p) ↦ rw (handle_register, e, p) (omega arith)
        ]
      ]
