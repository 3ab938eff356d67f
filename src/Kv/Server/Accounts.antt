-- ===== src/Kv/Server/Accounts.antt =====
-- The accounts that a vault's state keeps, through what happens to it.
pub mod Vaults
use repani.Base.{
  ℕ, max, ◌+◌, ◌^◌, ◌≤◌, ◌<◌, ◌≡◌, inl, inr, refl, sym, ap, subst, ◌∙◌, Bool, List, [], ◌++◌, Bytes,
  length, length-append, take, take_all, ltb, ◌==◌, Bool-cases, Option-cases, ok, arith,
}
use repani.Kv.Vault.Entry.{Entry}
use repani.Kv.Vault.Keys.{derive_c2s, derive_s2c}
use repani.Kv.Server.Quotas.{Quotas}
use repani.Kv.Server.State.{StoreOps, VaultState, Server, put_state, with_store, new_vault_state}
use repani.Kv.Server.Lifecycle.{ended_state, revoke, install, close_state}
use repani.Kv.Server.Pushes.{validate_new, charge, add_validated_locked}
use repani.Kv.Server.Pushes.Validation.{
  charge-sum, total_size-append, fresh_of-IsFresh, validate_new-verdict, verdict_ok,
}
use repani.Kv.Server.Laws.{StoreLaws, total_size, IsFresh}
use repani.Kv.Server.Moves.{
  Move, Moves, Touch, IsNew, touch, end_vault, begin_vault, write_record, call_hook, shut_down,
  here, more, left_alone, hashed, flagged, shut, pushed_to,
}

-- Quotas that leave uint64 sums room.
pub record IsBounded (q : Quotas) : Type 0 where
  pub entries_bound : q.max_entries < 2 ^ 63
  pub bytes_bound : q.max_vault_bytes < 2 ^ 63
  pub skew_bound : q.ts_skew_ms < 2 ^ 63

module _ {S A : Type 0} (cxof : Bytes → Bytes → Bytes) (ops : StoreOps S A) (IsGood : S → Type 0)
    (held : S → List Entry) where
  -- The byte count is the size of the entries, the quotas hold, and the channel keys are the auth
  -- key's.
  pub record HasAccounts (quotas : Quotas) (st : VaultState S) : Type 0 where
    pub store_good : IsGood st.s
    pub balanced : st.bytes ≡ total_size (held st.s)
    pub few_entries : length (held st.s) ≤ quotas.max_entries
    pub few_bytes : st.bytes ≤ quotas.max_vault_bytes
    pub c2s_derived : st.c2s ≡ derive_c2s cxof st.auth_key
    pub s2c_derived : st.s2c ≡ derive_s2c cxof st.auth_key

  -- The same for a vault that began with the entries `old`, of which `counted` bytes were counted: what
  -- came after is counted, and the quotas hold but for what was there.
  pub record KeepsAccounts (old : List Entry) (counted : ℕ) (quotas : Quotas) (st : VaultState S)
      : Type 0 where
    pub store_good : IsGood st.s
    pub balanced : st.bytes + total_size old ≡ total_size (held st.s) + counted
    pub few_entries : length (held st.s) ≤ max quotas.max_entries (length old)
    pub few_bytes : st.bytes ≤ max quotas.max_vault_bytes counted
    pub c2s_derived : st.c2s ≡ derive_c2s cxof st.auth_key
    pub s2c_derived : st.s2c ≡ derive_s2c cxof st.auth_key

  -- Where nothing was there, the quotas hold.
  pub KeepsAccounts-HasAccounts :
      (q : Quotas) (st : VaultState S) → KeepsAccounts [] 0 q st → HasAccounts q st
  unfolding total_size
  KeepsAccounts-HasAccounts q st k = record {
    store_good = k.store_good;
    balanced = omega (arith, k.balanced);
    few_entries = omega (arith, k.few_entries);
    few_bytes = omega (arith, k.few_bytes);
    c2s_derived = k.c2s_derived;
    s2c_derived = k.s2c_derived;
  }

  -- A vault as it begins, with what its store holds.
  pub begun-KeepsAccounts :
      (q : Quotas) (st : VaultState S)
      → IsGood st.s
      → st.c2s ≡ derive_c2s cxof st.auth_key
      → st.s2c ≡ derive_s2c cxof st.auth_key
      → KeepsAccounts (held st.s) st.bytes q st
  begun-KeepsAccounts q st good c2s s2c = record {
    store_good = good;
    balanced = omega arith;
    few_entries = omega arith;
    few_bytes = omega arith;
    c2s_derived = c2s;
    s2c_derived = s2c;
  }

  -- The fields that the accounts read.
  abbrev accounts_of : VaultState S → S × (ℕ × (Bytes × (Bytes × Bytes)))
  accounts_of st = (st.s, (st.bytes, (st.c2s, (st.s2c, st.auth_key))))

  agreeing-KeepsAccounts :
      (old : List Entry) (counted : ℕ) (q : Quotas) (st st' : VaultState S)
      → accounts_of st ≡ accounts_of st'
      → KeepsAccounts old counted q st
      → KeepsAccounts old counted q st'
  agreeing-KeepsAccounts old counted q st st' e h =
      let store : st.s ≡ st'.s = ap (λ p. p.0) e in
      let held_same : held st.s ≡ held st'.s = ap held store in
      let bytes : st.bytes ≡ st'.bytes = ap (λ p. p.1.0) e in
      let c2s : st.c2s ≡ st'.c2s = ap (λ p. p.1.1.0) e in
      let s2c : st.s2c ≡ st'.s2c = ap (λ p. p.1.1.1.0) e in
      let key : st.auth_key ≡ st'.auth_key = ap (λ p. p.1.1.1.1) e in
      record {
        store_good = subst IsGood store h.store_good;
        balanced =
            ap (λ (n : ℕ). n + total_size old) (sym bytes)
            ∙ h.balanced
            ∙ ap (λ es. total_size es + counted) held_same;
        few_entries =
            subst (λ es. length es ≤ max q.max_entries (length old)) held_same h.few_entries;
        few_bytes = subst (λ (n : ℕ). n ≤ max q.max_vault_bytes counted) bytes h.few_bytes;
        c2s_derived = sym c2s ∙ h.c2s_derived ∙ ap (derive_c2s cxof) key;
        s2c_derived = sym s2c ∙ h.s2c_derived ∙ ap (derive_s2c cxof) key;
      }

  module _ (laws : StoreLaws cxof ops IsGood held) (old : List Entry) (counted : ℕ) where
    with_held :
        (q : Quotas) (st : VaultState S) (s : S)
        → IsGood s
        → held s ≡ held st.s
        → KeepsAccounts old counted q st
        → KeepsAccounts old counted q (with_store s st)
    unfolding with_store
    with_held q st s g e a = record {
      store_good = g;
      balanced = rw e a.balanced;
      few_entries = rw e a.few_entries;
      few_bytes = a.few_bytes;
      c2s_derived = a.c2s_derived;
      s2c_derived = a.s2c_derived;
    }

    -- What addValidatedLocked does with what validateNew accepted.
    add_validated-KeepsAccounts :
        (q : Quotas) (st : VaultState S) (a : A) (news : List Entry) (n : ℕ) (s : S)
        → KeepsAccounts old counted q st
        → IsBounded q
        → length old < 2 ^ 63
        → counted < 2 ^ 63
        → IsGood s
        → held s ≡ held st.s ++ news
        → n ≡ length news
        → length (held st.s) + length news ≤ q.max_entries
        → st.bytes + total_size news ≤ q.max_vault_bytes
        → KeepsAccounts old counted q (record st { s = s; bytes = charge (take n news) st.bytes })
    add_validated-KeepsAccounts q st a news n s h b lo co g grown all few small =
        let taken : take n news ≡ news = take_all n news (omega arith) in
        let bytes_bound = b.bytes_bound in
        let paid : charge (take n news) st.bytes ≡ st.bytes + total_size news =
          ap (λ es. charge es st.bytes) taken ∙ charge-sum news st.bytes (omega arith) in
        record {
          store_good = g;
          balanced =
              rw (grown, total_size-append (held st.s) news) (omega (arith, h.balanced, paid));
          few_entries = rw grown (omega (arith, length-append (held st.s) news));
          few_bytes = omega (arith, paid);
          c2s_derived = h.c2s_derived;
          s2c_derived = h.s2c_derived;
        }

    pushed-KeepsAccounts :
        (q : Quotas) (st : VaultState S) (now : ℕ) (check : Bool) (pushes : List Entry) (a : A)
        (news : List Entry)
        → IsBounded q
        → length old < 2 ^ 63
        → counted < 2 ^ 63
        → KeepsAccounts old counted q st
        → now < 2 ^ 63
        → total_size pushes < 2 ^ 63
        → validate_new cxof ops now q st pushes check ≡ ok news
        → KeepsAccounts old counted q (add_validated_locked ops a news st).0
    unfolding add_validated_locked
    pushed-KeepsAccounts q st now check pushes a news b lo co h clock small valid =
        let entries_bound = b.entries_bound in
        let bytes_bound = b.bytes_bound in
        let skew_bound = b.skew_bound in
        let few_entries = h.few_entries in
        let few_bytes = h.few_bytes in
        let lens = laws.len_held st.s h.store_good in
        let judged =
          validate_new-verdict cxof ops now q st pushes check (omega arith) (omega arith)
            (omega arith) in
        let (e, few, within) =
          verdict_ok cxof ops now q st pushes check news (sym judged ∙ valid) in
        let fresh : IsFresh cxof ops st.s [] news =
          rw e (fresh_of-IsFresh cxof ops st.s [] pushes) in
        let good = laws.add_good a news st.s h.store_good in
        elim (Option-cases (ops.add a news st.s).1) [
          | inl failed ↦
              let (same, _) = laws.add_err a news st.s h.store_good failed in
              rw (add_validated_locked, failed)
                (record {
                  store_good = good;
                  balanced = rw same h.balanced;
                  few_entries = rw same h.few_entries;
                  few_bytes = h.few_bytes;
                  c2s_derived = h.c2s_derived;
                  s2c_derived = h.s2c_derived;
                })
          | inr (n, added) ↦
              let (grown, all) = laws.add_ok a news st.s n h.store_good fresh added in
              let paid =
                add_validated-KeepsAccounts q st a news n (ops.add a news st.s).0 h b lo co good
                  grown all (omega arith) within in
              elim (Bool-cases (ltb 0 n)) [
                | inl some_new ↦
                    rw (add_validated_locked, added, some_new)
                      (agreeing-KeepsAccounts old counted q _ _ refl paid)
                | inr none_new ↦ rw (add_validated_locked, added, none_new) paid
              ]
        ]

    pub Touch-KeepsAccounts :
        (q : Quotas)
        → IsBounded q
        → length old < 2 ^ 63
        → counted < 2 ^ 63
        → {st st' : VaultState S} → Touch cxof ops IsGood held q st st'
        → KeepsAccounts old counted q st
        → KeepsAccounts old counted q st'
    unfolding close_state with_store
    Touch-KeepsAccounts q b lo co (left_alone st) h = h
    Touch-KeepsAccounts q b lo co (hashed st) h =
        with_held q st (ops.set_hash st.s).0 (laws.set_hash_good st.s h.store_good)
          (laws.set_hash_held st.s h.store_good) h
    Touch-KeepsAccounts q b lo co (flagged st v) h =
        agreeing-KeepsAccounts old counted q st _ refl h
    Touch-KeepsAccounts q b lo co (shut st) h =
        let closed =
          with_held q st (ops.close st.s) (laws.close_good st.s h.store_good)
            (laws.close_held st.s h.store_good) h in
        agreeing-KeepsAccounts old counted q (with_store (ops.close st.s) st) _ refl closed
    Touch-KeepsAccounts q b lo co (pushed_to st now check pushes a news g clock small valid) h =
        pushed-KeepsAccounts q st now check pushes a news b lo co h clock small valid

    pub ended-KeepsAccounts :
        (q : Quotas) (st : VaultState S)
        → KeepsAccounts old counted q st
        → KeepsAccounts old counted q (ended_state ops st)
    unfolding ended_state with_store
    ended-KeepsAccounts q st h =
        let closed =
          with_held q st (ops.close st.s) (laws.close_good st.s h.store_good)
            (laws.close_held st.s h.store_good) h in
        agreeing-KeepsAccounts old counted q (with_store (ops.close st.s) st) _ refl closed
