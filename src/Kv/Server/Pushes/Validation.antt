-- ===== src/Kv/Server/Pushes/Validation.antt =====
-- What validateNew decides, without its loop and without wrap-around.
use repani.Base.{
  ℕ, ◌+◌, ◌^◌, ◌≤◌, ◌<◌, ◌≡◌, inl, inr, refl, sym, ap, ◌∙◌, Bool, false, ◌||◌, List, [], ◌∷◌, ◌++◌,
  append_assoc, append-nil, Bytes, length, ltb, if◌then◌else◌, Bool-cases, ltb_false→le, Option,
  none, some, Result, ok, err, arith,
}
use repani.Kv.Vault.Entry.{Entry, size}
use repani.Kv.Vault.Ids.{entry_id}
use repani.Kv.Store.Canonical.{has_id}
use repani.Kv.Server.Quotas.{Quotas}
use repani.Kv.Server.State.{StoreOps, VaultState}
use repani.Kv.Server.Laws.{total_size, IsFresh}
use repani.Kv.Server.Pushes.{
  Refusal, quota, skew, add64, is_late, validate_loop, validate_new, within_quotas, skew_limit,
  charge,
}

abbrev pub any_late : Option ℕ → List Entry → Bool
any_late limit [] = false
any_late limit (e ∷ es) = is_late limit e || any_late limit es

-- uint64 sums that stay below 2 ^ 64
pub charge-sum :
    (es : List Entry) (n : ℕ) → n + total_size es < 2 ^ 64 → charge es n ≡ n + total_size es
unfolding charge total_size
charge-sum [] n h = omega arith
charge-sum (e ∷ es) n h =
    let step : add64 n (size e) ≡ n + size e = omega arith in
    rw step (omega (arith, charge-sum es (n + size e) (omega arith)))

pub total_size-append : (xs ys : List Entry) → total_size (xs ++ ys) ≡ total_size xs + total_size ys
unfolding total_size
total_size-append [] ys = omega arith
total_size-append (x ∷ xs) ys = omega (arith, total_size-append xs ys)

pub length-total_size : (es : List Entry) → length es ≤ total_size es
unfolding total_size size
length-total_size [] = omega arith
length-total_size (e ∷ es) = omega (arith, length-total_size es)

module _ {S A : Type 0} (cxof : Bytes → Bytes → Bytes) (ops : StoreOps S A) where
  -- The first of each entry that neither the store nor `seen` has.
  unfoldable pub fresh_of : S → List Bytes → List Entry → List Entry
  fresh_of s seen [] = []
  fresh_of s seen (e ∷ es) =
      let id = entry_id cxof e in
      let old = has_id id seen || ops.has id s in
      let rest = fresh_of s (if old then seen else id ∷ seen) es in if old then rest else e ∷ rest

  pub fresh_of-IsFresh :
      (s : S) (seen : List Bytes) (es : List Entry) → IsFresh cxof ops s seen (fresh_of s seen es)
  unfolding fresh_of
  fresh_of-IsFresh s seen [] = tt
  fresh_of-IsFresh s seen (e ∷ es) =
      let id = entry_id cxof e in
      elim (Bool-cases (has_id id seen)) [
        | inl a ↦ rw a (fresh_of-IsFresh s seen es)
        | inr a ↦ elim (Bool-cases (ops.has id s)) [
          | inl b ↦ rw (a, b) (fresh_of-IsFresh s seen es)
          | inr b ↦ rw (a, b) (a, b, fresh_of-IsFresh s (id ∷ seen) es)
        ]
      ]

  pub total_size-fresh_of :
      (s : S) (seen : List Bytes) (es : List Entry)
      → total_size (fresh_of s seen es) ≤ total_size es
  unfolding fresh_of total_size
  total_size-fresh_of s seen [] = omega arith
  total_size-fresh_of s seen (e ∷ es) =
      let id = entry_id cxof e in
      elim (Bool-cases (has_id id seen || ops.has id s)) [
        | inl old ↦ rw old (omega (arith, total_size-fresh_of s seen es))
        | inr new ↦ rw new (omega (arith, total_size-fresh_of s (id ∷ seen) es))
      ]

  abbrev one_of : Bool → List Entry → ℕ → Result Refusal (List Entry × ℕ)
  one_of late news total = if late then err skew else ok (news, total)

  abbrev loop_verdict : Option ℕ → List Entry → List Entry → ℕ → Result Refusal (List Entry × ℕ)
  loop_verdict limit fresh news total =
      one_of (any_late limit fresh) (news ++ fresh) (charge fresh total)

  validate_loop-verdict :
      (limit : Option ℕ) (s : S) (es : List Entry) (seen : List Bytes) (news : List Entry)
      (total : ℕ)
      → validate_loop cxof ops limit s es seen news total
        ≡ loop_verdict limit (fresh_of s seen es) news total
  unfolding validate_loop fresh_of charge
  validate_loop-verdict limit s [] seen news total =
      ap (λ (t : List Entry). ok (t, total)) (sym (append-nil news))
  validate_loop-verdict limit s (e ∷ es) seen news total =
      let id = entry_id cxof e in
      elim (Bool-cases (has_id id seen || ops.has id s)) [
        | inl old ↦ rw old (validate_loop-verdict limit s es seen news total)
        | inr new ↦
            let ih =
              validate_loop-verdict limit s es (id ∷ seen) (news ++ e ∷ [])
                (add64 total (size e)) in
            let rest = fresh_of s (id ∷ seen) es in
            elim (Bool-cases (is_late limit e)) [
              | inl late ↦ rw (new, late) refl
              | inr fine ↦
                  rw (new, fine)
                    (ih
                      ∙ ap
                          (λ l. one_of (any_late limit rest) l (charge rest (add64 total (size e))))
                          (append_assoc news (e ∷ []) rest))
            ]
      ]

  -- What validateNew decides where no sum wraps around.
  unfoldable pub verdict :
      ℕ → Quotas → VaultState S → List Entry → Bool → Result Refusal (List Entry)
  verdict now quotas st pushes check_skew =
      let fresh = fresh_of st.s [] pushes in
      if any_late (if check_skew then some (now + quotas.ts_skew_ms) else none) fresh
      then err skew
      else if ltb quotas.max_entries (ops.len st.s + length fresh)
      then err quota
      else if ltb quotas.max_vault_bytes (st.bytes + total_size fresh)
      then err quota
      else ok fresh

  -- validateNew, for a clock, a store and a request within 64 bits, refuses an entry that is new and
  -- late, then a count and then a total size above the quotas, and otherwise returns the first of each
  -- new entry.
  pub validate_new-verdict :
      (now : ℕ) (quotas : Quotas) (st : VaultState S) (pushes : List Entry) (check_skew : Bool)
      → now + quotas.ts_skew_ms < 2 ^ 64
      → ops.len st.s + total_size pushes < 2 ^ 64
      → st.bytes + total_size pushes < 2 ^ 64
      → validate_new cxof ops now quotas st pushes check_skew
        ≡ verdict now quotas st pushes check_skew
  unfolding validate_new within_quotas skew_limit verdict
  validate_new-verdict now quotas st pushes check_skew clock few small =
      let fresh = fresh_of st.s [] pushes in
      let size_le = total_size-fresh_of st.s [] pushes in
      let len_le = length-total_size fresh in
      let limit = if check_skew then some (now + quotas.ts_skew_ms) else none in
      let limit_eq : skew_limit now quotas check_skew ≡ limit =
        ap (λ (n : ℕ). if check_skew then some n else none)
          (let e : add64 now quotas.ts_skew_ms ≡ now + quotas.ts_skew_ms = omega arith in e) in
      let looped =
        ap (λ l. validate_loop cxof ops l st.s pushes [] [] 0) limit_eq
        ∙ validate_loop-verdict limit st.s pushes [] [] 0 in
      let charged : charge fresh 0 ≡ total_size fresh =
        omega (arith, charge-sum fresh 0 (omega arith)) in
      let count : add64 (ops.len st.s) (length fresh) ≡ ops.len st.s + length fresh = omega arith in
      let weight : add64 st.bytes (total_size fresh) ≡ st.bytes + total_size fresh = omega arith in
      ap (within_quotas cxof ops quotas st) looped ∙ (elim (Bool-cases (any_late limit fresh)) [
        | inl late ↦ rw late refl
        | inr fine ↦ rw (fine, within_quotas, charged, count, weight) refl
      ])

  -- What an accepted request is.
  pub verdict_ok :
      (now : ℕ) (quotas : Quotas) (st : VaultState S) (pushes : List Entry) (check_skew : Bool)
      (news : List Entry)
      → verdict now quotas st pushes check_skew ≡ ok news
      → (news ≡ fresh_of st.s [] pushes)
        × (ops.len st.s + length news ≤ quotas.max_entries)
        × (st.bytes + total_size news ≤ quotas.max_vault_bytes)
  unfolding verdict
  verdict_ok now quotas st pushes check_skew news h =
      let fresh = fresh_of st.s [] pushes in
      let limit = if check_skew then some (now + quotas.ts_skew_ms) else none in
      elim (Bool-cases (any_late limit fresh)) [
        | inl late ↦ absurd (cc (rw (verdict, late) at h))
        | inr fine ↦ elim (Bool-cases (ltb quotas.max_entries (ops.len st.s + length fresh))) [
          | inl many ↦ absurd (cc (rw (verdict, fine, many) at h))
          | inr few ↦ elim (Bool-cases (ltb quotas.max_vault_bytes (st.bytes + total_size fresh))) [
            | inl big ↦ absurd (cc (rw (verdict, fine, few, big) at h))
            | inr small ↦
                let e : fresh ≡ news = cc (rw (verdict, fine, few, small) at h) in
                rw (← e) (
                  refl,
                  ltb_false→le quotas.max_entries (ops.len st.s + length fresh) few,
                  ltb_false→le quotas.max_vault_bytes (st.bytes + total_size fresh) small,
                )
          ]
        ]
      ]
