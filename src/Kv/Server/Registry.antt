-- ===== src/Kv/Server/Registry.antt =====
-- The map of vaults and the revoked identifiers, through every step.
use repani.Base.{
  ℕ, ◌<◌, ◌≡◌, ◌⊎◌, inl, inr, refl, sym, ap, ◌∙◌, true, false, List, Bytes, ltb, ◌==◌, ==_iff,
  ==_refl, Bool-cases, some, Option-cases, arith,
}
use repani.Kv.Vault.Entry.{Entry}
use repani.Kv.Store.Canonical.{has_id, has_id-cons, bytes_eq, bytes_eq_iff}
use repani.Kv.Server.Maps.{lookup, delete, set_key, lookup-delete, lookup-set_key}
use repani.Kv.Server.Quotas.{Quotas}
use repani.Kv.Server.State.{
  StoreOps, VaultState, Server, put_state, set_state, with_store, new_vault_state,
}
use repani.Kv.Server.Lifecycle.{ended_state, revoke, install, close_state}
use repani.Kv.Server.Pushes.{add_validated_locked}
use repani.Kv.Server.Moves.{
  Move, Moves, Touch, IsNew, touch, end_vault, begin_vault, write_record, call_hook, shut_down,
  here, more, left_alone, hashed, flagged, shut, pushed_to,
}

-- A served vault is not revoked and not gone, and no two identifiers share a state.
pub record IsRegistry {S : Type 0} (sv : Server S) : Type 0 where
  pub live :
      (vid : Bytes) (ref : ℕ)
      → lookup vid sv.vaults ≡ some ref
      → (has_id vid sv.revoked ≡ false) × ((sv.heap ref).gone ≡ false) × (ref < sv.next)
  pub owned :
      (vid vid' : Bytes) (ref : ℕ)
      → lookup vid sv.vaults ≡ some ref
      → lookup vid' sv.vaults ≡ some ref
      → vid ≡ vid'

module _ {S : Type 0} where
  pub get-put_same :
      (ref : ℕ) (st : VaultState S) (heap : ℕ → VaultState S) → put_state ref st heap ref ≡ st
  unfolding put_state
  get-put_same ref st heap = rw (==_refl ref) refl

  pub get-put_other :
      (ref r : ℕ) (st : VaultState S) (heap : ℕ → VaultState S)
      → (r == ref) ≡ false
      → put_state ref st heap r ≡ heap r
  unfolding put_state
  get-put_other ref r st heap e = rw e refl

module _ {S A : Type 0} (cxof : Bytes → Bytes → Bytes) (ops : StoreOps S A) (IsGood : S → Type 0)
    (held : S → List Entry) (Began : List Entry → ℕ → Type 0) where
  Touch-gone :
      {q : Quotas} {st st' : VaultState S}
      → Touch cxof ops IsGood held q st st'
      → st'.gone ≡ st.gone
  unfolding with_store close_state add_validated_locked
  Touch-gone (left_alone st) = refl
  Touch-gone (hashed st) = refl
  Touch-gone (flagged st v) = refl
  Touch-gone (shut st) = refl
  Touch-gone (pushed_to st now check pushes a news g clock small valid) =
      elim (Option-cases (ops.add a news st.s).1) [
        | inl e ↦ rw (add_validated_locked, e) refl
        | inr (n, e) ↦ elim (Bool-cases (ltb 0 n)) [
          | inl b ↦ rw (add_validated_locked, e, b) refl
          | inr b ↦ rw (add_validated_locked, e, b) refl
        ]
      ]

  Touch-IsRegistry :
      (sv : Server S) (ref : ℕ) (st : VaultState S)
      → Touch cxof ops IsGood held sv.quotas (sv.heap ref) st
      → IsRegistry sv
      → IsRegistry (set_state ref st sv)
  Touch-IsRegistry sv ref st t w = record {
    live = λ vid r l.
        let (not_revoked, not_gone, old) = w.live vid r l in
        elim (Bool-cases (r == ref)) [
          | inl e ↦
              let same : r ≡ ref = (==_iff r ref).0 e in
              let gone : (put_state ref st sv.heap r).gone ≡ false =
                ap (λ (v : ℕ). (put_state ref st sv.heap v).gone) same
                ∙ ap (λ (v : VaultState S). v.gone) (get-put_same ref st sv.heap)
                ∙ Touch-gone t
                ∙ ap (λ (v : ℕ). (sv.heap v).gone) (sym same)
                ∙ not_gone in
              (not_revoked, gone, old)
          | inr e ↦
              let gone : (put_state ref st sv.heap r).gone ≡ false =
                ap (λ (v : VaultState S). v.gone) (get-put_other ref r st sv.heap e) ∙ not_gone in
              (not_revoked, gone, old)
        ];
    owned = w.owned;
  }

  -- What is left of the map after a deletion.
  kept_key :
      (vid v : Bytes) (r : ℕ) (m : List (Bytes × ℕ))
      → lookup v (delete vid m) ≡ some r
      → (bytes_eq vid v ≡ false) × (lookup v m ≡ some r)
  kept_key vid v r m l = elim (Bool-cases (bytes_eq vid v)) [
    | inl e ↦ absurd (cc (rw (lookup-delete vid v m, e) at l))
    | inr e ↦ (e, rw (lookup-delete vid v m, e) at l)
  ]

  end-IsRegistry :
      (sv : Server S) (vid : Bytes) (ref : ℕ)
      → lookup vid sv.vaults ≡ some ref
      → IsRegistry sv
      → IsRegistry (revoke ops vid ref sv)
  unfolding revoke
  end-IsRegistry sv vid ref h w = record {
    live = λ v r l.
        let (other, was) = kept_key vid v r sv.vaults l in
        let (not_revoked, not_gone, old) = w.live v r was in
        let apart : (r == ref) ≡ false = elim (Bool-cases (r == ref)) [
          | inr e ↦ e
          | inl e ↦
              let same : lookup v sv.vaults ≡ some ref = was ∙ ap some ((==_iff r ref).0 e) in
              let one = (bytes_eq_iff vid v).1 (w.owned vid v ref h same) in absurd (cc)
        ] in
        (
          rw (has_id-cons v vid sv.revoked, other) not_revoked,
          ap (λ (x : VaultState S). x.gone)
                (get-put_other ref r (ended_state ops (sv.heap ref)) sv.heap apart)
              ∙ not_gone,
          old,
        );
    owned = λ v v' r l l'.
        w.owned v v' r (kept_key vid v r sv.vaults l).1 (kept_key vid v' r sv.vaults l').1;
  }

  -- The map after m[vid] = ref.
  set_cases :
      (vid v : Bytes) (ref r : ℕ) (m : List (Bytes × ℕ))
      → lookup v (set_key vid ref m) ≡ some r
      → ((vid ≡ v) × (ref ≡ r)) ⊎ (lookup v m ≡ some r)
  set_cases vid v ref r m l = elim (Bool-cases (bytes_eq vid v)) [
    | inl e ↦ inl ((bytes_eq_iff vid v).0 e, cc (rw (lookup-set_key vid v ref m, e) at l))
    | inr e ↦ inr (rw (lookup-set_key vid v ref m, e) at l)
  ]

  pub begin-IsRegistry :
      (sv : Server S) (vid : Bytes) (st : VaultState S)
      → has_id vid sv.revoked ≡ false
      → st.gone ≡ false
      → IsRegistry sv
      → IsRegistry (install vid st sv)
  unfolding install
  begin-IsRegistry sv vid st free not_gone w = record {
    live = λ v r l. elim (set_cases vid v sv.next r sv.vaults l) [
      | inl (same, here') ↦ (
        ap (λ i. has_id i sv.revoked) (sym same) ∙ free,
        ap (λ (i : ℕ). (put_state sv.next st sv.heap i).gone) (sym here')
            ∙ ap (λ (x : VaultState S). x.gone) (get-put_same sv.next st sv.heap)
            ∙ not_gone,
        omega arith,
      )
      | inr was ↦
          let (not_revoked, alive, old) = w.live v r was in
          let apart : (r == sv.next) ≡ false = ground arith in
          (
            not_revoked,
            ap (λ (x : VaultState S). x.gone) (get-put_other sv.next r st sv.heap apart) ∙ alive,
            omega arith,
          )
    ];
    owned = λ v v' r l l'. elim (set_cases vid v sv.next r sv.vaults l) [
      | inl (same, new) ↦ elim (set_cases vid v' sv.next r sv.vaults l') [
        | inl (same', new') ↦ sym same ∙ same'
        | inr was' ↦ let (_, _, old) = w.live v' r was' in absurd (omega arith)
      ]
      | inr was ↦ elim (set_cases vid v' sv.next r sv.vaults l') [
        | inl (same', new') ↦ let (_, _, old) = w.live v r was in absurd (omega arith)
        | inr was' ↦ w.owned v v' r was was'
      ]
    ];
  }

  new_alive : (st : VaultState S) → IsNew cxof ops IsGood held Began st → st.gone ≡ false
  unfolding new_vault_state
  new_alive st n = let (dir, created, ephemeral, e) = n.made in ap (λ (v : VaultState S). v.gone) e

  Move-IsRegistry :
      {sv sv' : Server S} → Move cxof ops IsGood held Began sv sv' → IsRegistry sv → IsRegistry sv'
  Move-IsRegistry (touch sv ref st t) w = Touch-IsRegistry sv ref st t w
  Move-IsRegistry (end_vault sv vid ref l) w = end-IsRegistry sv vid ref l w
  Move-IsRegistry (begin_vault sv vid st r l n) w = begin-IsRegistry sv vid st r (new_alive st n) w
  Move-IsRegistry (write_record sv rs) w = record { live = w.live; owned = w.owned }
  Move-IsRegistry (call_hook sv calls) w = record { live = w.live; owned = w.owned }
  Move-IsRegistry (shut_down sv) w = record { live = w.live; owned = w.owned }

  pub Moves-IsRegistry :
      {sv sv' : Server S} → Moves cxof ops IsGood held Began sv sv' → IsRegistry sv → IsRegistry sv'
  Moves-IsRegistry here w = w
  Moves-IsRegistry (more ms m) w = Move-IsRegistry m (Moves-IsRegistry ms w)

  Move-still_revoked :
      {sv sv' : Server S}
      → (vid : Bytes) → Move cxof ops IsGood held Began sv sv'
      → has_id vid sv.revoked ≡ true
      → has_id vid sv'.revoked ≡ true
  unfolding revoke install
  Move-still_revoked vid (touch sv ref st t) h = h
  Move-still_revoked vid (end_vault sv vid' ref l) h =
      rw (has_id-cons vid vid' sv.revoked) (ground arith)
  Move-still_revoked vid (begin_vault sv vid' st r l n) h = h
  Move-still_revoked vid (write_record sv rs) h = h
  Move-still_revoked vid (call_hook sv calls) h = h
  Move-still_revoked vid (shut_down sv) h = h

  pub Moves-still_revoked :
      {sv sv' : Server S}
      → (vid : Bytes) → Moves cxof ops IsGood held Began sv sv'
      → has_id vid sv.revoked ≡ true
      → has_id vid sv'.revoked ≡ true
  Moves-still_revoked vid here h = h
  Moves-still_revoked vid (more ms m) h = Move-still_revoked vid m (Moves-still_revoked vid ms h)
