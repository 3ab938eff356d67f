-- ===== src/Kv/Server/Accounts/Vaults.antt =====
-- The accounts of every vault, through the moves of a server.
use repani.Base.{
  ℕ, ◌^◌, ◌<◌, ◌≡◌, ◌⊎◌, inl, inr, refl, ap, subst, ◌∙◌, List, [], length, Bytes, ◌==◌, Bool-cases,
  arith,
}
use repani.Kv.Vault.Entry.{Entry}
use repani.Kv.Server.Quotas.{Quotas}
use repani.Kv.Server.State.{StoreOps, VaultState, Server, put_state, new_vault_state}
use repani.Kv.Server.Lifecycle.{ended_state, revoke, install}
use repani.Kv.Server.Laws.{StoreLaws}
use repani.Kv.Server.Moves.{
  Move, Moves, Touch, IsNew, touch, end_vault, begin_vault, write_record, call_hook, shut_down,
  here, more,
}
use repani.Kv.Server.Accounts.{
  IsBounded, KeepsAccounts, Touch-KeepsAccounts, ended-KeepsAccounts, begun-KeepsAccounts,
}

module _ {S A : Type 0} (cxof : Bytes → Bytes → Bytes) (ops : StoreOps S A) (IsGood : S → Type 0)
    (held : S → List Entry) (Began : List Entry → ℕ → Type 0) where
  module _ (laws : StoreLaws cxof ops IsGood held) where
    -- How a vault has begun: empty, or as `Began` says, within what a sum of uint64 holds.
    abbrev pub IsBeginning : List Entry → ℕ → Type 0
    IsBeginning old counted =
        ((old ≡ []) × (counted ≡ 0))
        ⊎ (Began old counted × (length old < 2 ^ 63) × (counted < 2 ^ 63))

    abbrev pub IsKept : Quotas → VaultState S → Type 0
    IsKept q st =
        (old : List Entry) × ((counted : ℕ) × (IsBeginning old counted
            × KeepsAccounts cxof ops IsGood held old counted q st))

    abbrev pub IsAccounted : Server S → Type 0
    IsAccounted sv = (ref : ℕ) → IsKept sv.quotas (sv.heap ref)

    beginning_fits :
        (old : List Entry) (counted : ℕ)
        → IsBeginning old counted
        → (length old < 2 ^ 63) × (counted < 2 ^ 63)
    beginning_fits old counted (inl (none_there, nothing)) =
        (rw none_there (omega arith), rw nothing (omega arith))
    beginning_fits old counted (inr (_, few, small)) = (few, small)

    Touch-IsKept :
        (q : Quotas) (st st' : VaultState S)
        → IsBounded q
        → Touch cxof ops IsGood held q st st'
        → IsKept q st
        → IsKept q st'
    Touch-IsKept q st st' b t (old, (counted, (begun, k))) =
        let (few, small) = beginning_fits old counted begun in
        (
          old,
          (
            counted,
            (begun, Touch-KeepsAccounts cxof ops IsGood held laws old counted q b few small t k),
          ),
        )

    ended-IsKept : (q : Quotas) (st : VaultState S) → IsKept q st → IsKept q (ended_state ops st)
    ended-IsKept q st (old, (counted, (begun, k))) =
        (old, (counted, (begun, ended-KeepsAccounts cxof ops IsGood held laws old counted q st k)))

    new-IsKept :
        (q : Quotas) (st : VaultState S) → IsNew cxof ops IsGood held Began st → IsKept q st
    unfolding new_vault_state
    new-IsKept q st n =
        let (dir, created, ephemeral, e) = n.made in
        let no_bytes : st.bytes ≡ 0 = ap (λ (v : VaultState S). v.bytes) e in
        let begun : IsBeginning (held st.s) 0 = elim n.store_began [
          | inl empty ↦ inl (empty, refl)
          | inr (b, few) ↦ inr (b, few, omega arith)
        ] in
        let k =
          begun-KeepsAccounts cxof ops IsGood held q st n.store_good
            (ap (λ (v : VaultState S). v.c2s) e) (ap (λ (v : VaultState S). v.s2c) e) in
        (
          held st.s,
          (
            0,
            (
              begun,
              subst (λ (c : ℕ). KeepsAccounts cxof ops IsGood held (held st.s) c q st) no_bytes k,
            ),
          ),
        )

    pub put-IsKept :
        (q : Quotas) (ref : ℕ) (st : VaultState S) (heap : ℕ → VaultState S)
        → IsKept q st
        → ((r : ℕ) → IsKept q (heap r))
        → (r : ℕ) → IsKept q (put_state ref st heap r)
    unfolding put_state
    put-IsKept q ref st heap h hs r = elim (Bool-cases (r == ref)) [
      | inl e ↦ rw e h
      | inr e ↦ rw e (hs r)
    ]

    Move-IsAccounted :
        {sv sv' : Server S}
        → IsBounded sv.quotas
        → Move cxof ops IsGood held Began sv sv'
        → IsAccounted sv
        → IsAccounted sv' × IsBounded sv'.quotas
    unfolding revoke install
    Move-IsAccounted b (touch sv ref st t) h =
        (put-IsKept sv.quotas ref st sv.heap (Touch-IsKept sv.quotas _ st b t (h ref)) h, b)
    Move-IsAccounted b (end_vault sv vid ref l) h = (
      put-IsKept sv.quotas ref (ended_state ops (sv.heap ref)) sv.heap
          (ended-IsKept sv.quotas (sv.heap ref) (h ref)) h,
      b,
    )
    Move-IsAccounted b (begin_vault sv vid st r l n) h =
        (put-IsKept sv.quotas sv.next st sv.heap (new-IsKept sv.quotas st n) h, b)
    Move-IsAccounted b (write_record sv rs) h = (h, b)
    Move-IsAccounted b (call_hook sv calls) h = (h, b)
    Move-IsAccounted b (shut_down sv) h = (h, b)

    pub Moves-IsAccounted :
        {sv sv' : Server S}
        → IsBounded sv.quotas
        → Moves cxof ops IsGood held Began sv sv'
        → IsAccounted sv
        → IsAccounted sv' × IsBounded sv'.quotas
    Moves-IsAccounted b here h = (h, b)
    Moves-IsAccounted b (more ms m) h =
        let (h1, b1) = Moves-IsAccounted b ms h in Move-IsAccounted b1 m h1

  Move-quotas :
      {sv sv' : Server S} → Move cxof ops IsGood held Began sv sv' → sv'.quotas ≡ sv.quotas
  unfolding revoke install
  Move-quotas (touch sv ref st t) = refl
  Move-quotas (end_vault sv vid ref l) = refl
  Move-quotas (begin_vault sv vid st r l n) = refl
  Move-quotas (write_record sv rs) = refl
  Move-quotas (call_hook sv calls) = refl
  Move-quotas (shut_down sv) = refl

  pub Moves-quotas :
      {sv sv' : Server S} → Moves cxof ops IsGood held Began sv sv' → sv'.quotas ≡ sv.quotas
  Moves-quotas here = refl
  Moves-quotas (more ms m) = Move-quotas m ∙ Moves-quotas ms
