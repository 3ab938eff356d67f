-- ===== src/Kv/Server/Revoked.antt =====
-- What a revoked vault gets from the server, and what a restart makes of an ended record.
use repani.Base.{
  ℕ, ◌≡◌, ◌⊎◌, inl, inr, refl, ap, ◌∙◌, true, List, Bytes, Option, none, some, Option-cases, ok,
  Result-cases,
}
use repani.Kv.Vault.Aead.{Aead}
use repani.Kv.Vault.Entry.{Entry}
use repani.Kv.Store.Canonical.{has_id}
use repani.Kv.Wire.PreChannel.{reply, err_bad_frame, err_bad_auth, err_unknown_vault}
use repani.Kv.Wire.Frame.{Header}
use repani.Kv.Wire.Register.{parse_register}
use repani.Kv.Server.Maps.{lookup}
use repani.Kv.Server.State.{StoreOps, Server, Env}
use repani.Kv.Server.Register.{register_absent, register_vault, handle_register, open_any}
use repani.Kv.Server.Frames.{refused, admit}
use repani.Kv.Server.Owner.{revoked, unknown_vault, ensure_vault, drop_vault}
use repani.Kv.Server.Laws.{StoreLaws}
use repani.Kv.Server.Steps.{Reach, Reach-Moves}
use repani.Kv.Server.Registry.{IsRegistry, Moves-IsRegistry, Moves-still_revoked}

module _ {S A : Type 0} (cxof : Bytes → Bytes → Bytes) (new_aead : Bytes → Option Aead)
    (ops : StoreOps S A) (IsGood : S → Type 0) (held : S → List Entry)
    (Began : List Entry → ℕ → Type 0) where
  not_served :
      (sv : Server S) (vid : Bytes)
      → IsRegistry sv
      → has_id vid sv.revoked ≡ true
      → lookup vid sv.vaults ≡ none
  not_served sv vid w h = elim (Option-cases (lookup vid sv.vaults)) [
    | inl e ↦ e
    | inr (ref, e) ↦ let (no_longer, _, _) = w.live vid ref e in absurd (cc)
  ]

  refuses_register :
      (env : Env S A) (h : Header) (sealed : Bytes) (sv : Server S)
      → lookup h.vault_id sv.vaults ≡ none
      → has_id h.vault_id sv.revoked ≡ true
      → (handle_register cxof new_aead ops env h sealed sv ≡ (sv, ok (reply err_bad_auth)))
        ⊎ (handle_register cxof new_aead ops env h sealed sv ≡ (sv, ok (reply err_bad_frame)))
  unfolding handle_register register_vault register_absent
  refuses_register env h sealed sv l r =
      elim (Option-cases (open_any new_aead sv.reg_keys h sealed)) [
        | inl e ↦ inl (rw (handle_register, e) refl)
        | inr (payload, e) ↦ elim (Result-cases (parse_register payload)) [
          | inr (x, p) ↦ inr (rw (handle_register, e, p) refl)
          | inl ((ak, ephemeral), p) ↦ inl (rw (handle_register, e, p, register_vault, l, r) refl)
        ]
      ]

  -- The answers to every request for a vault that is shut out, which leave the server as it was.
  abbrev pub IsShutOut : Bytes → Server S → Type 0
  IsShutOut vid sv' =
      (lookup vid sv'.vaults ≡ none)
      × ((env : Env S A) (h : Header) (sealed : Bytes)
          → h.vault_id ≡ vid
          → (admit cxof new_aead ops env h sealed sv'
              ≡ (sv', refused (ok (reply err_unknown_vault))))
            × ((handle_register cxof new_aead ops env h sealed sv' ≡ (sv', ok (reply err_bad_auth)))
                ⊎ (handle_register cxof new_aead ops env h sealed sv'
                    ≡ (sv', ok (reply err_bad_frame)))))
      × ((env : Env S A) (ak note : Bytes)
          → (ensure_vault cxof ops env vid ak sv' ≡ (sv', some revoked))
            × (drop_vault cxof ops env vid note sv' ≡ (sv', some unknown_vault)))

  -- Once a vault is revoked in a well-formed registry, then after any steps, at clocks and with pushes
  -- below 2^63, where the logs opened for new vaults are good stores of fewer than 2^63 entries: it is not served; a SYNC
  -- frame for it is answered UNKNOWN_VAULT, a REGISTER BAD_AUTH, or BAD_FRAME where the payload does
  -- not parse; EnsureVault is ErrRevoked and DropVault ErrUnknownVault; and none of these changes the
  -- server.
  pub revoked_for_good :
      (laws : StoreLaws cxof ops IsGood held) (sv sv' : Server S) (vid : Bytes)
      → IsRegistry sv
      → has_id vid sv.revoked ≡ true
      → Reach cxof new_aead ops IsGood held Began sv sv'
      → IsShutOut vid sv'
  unfolding admit ensure_vault drop_vault
  revoked_for_good laws sv sv' vid w h steps =
      let moves = Reach-Moves cxof new_aead ops IsGood held Began laws steps in
      let still = Moves-still_revoked cxof ops IsGood held Began vid moves h in
      let absent = not_served sv' vid (Moves-IsRegistry cxof ops IsGood held Began moves w) still in
      (
        absent,
        λ env hd sealed e.
            let l : lookup hd.vault_id sv'.vaults ≡ none =
              ap (λ v. lookup v sv'.vaults) e ∙ absent in
            let r : has_id hd.vault_id sv'.revoked ≡ true =
              ap (λ v. has_id v sv'.revoked) e ∙ still in
            (rw (admit, l) refl, refuses_register env hd sealed sv' l r),
        λ env ak note. (rw (ensure_vault, still) refl, rw (drop_vault, absent) refl),
      )
