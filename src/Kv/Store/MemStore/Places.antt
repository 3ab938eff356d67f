-- ===== src/Kv/Store/MemStore/Places.antt =====
-- The place that sort.Search finds in a sorted order is the place of an insertion.
use Prim.Native.Nat.{lt}
use repani.Base.{
  ℕ, suc, ◌-◌, ◌≡◌, inl, inr, ap, Bool, true, false, List, [], ◌∷◌, ◌++◌, map, length, take, drop,
  get_or, ◌==◌, All, Bool-cases, is_lt, arith,
}
use repani.Base.Search.{count_while, binary_search-count_while, Falls}
use repani.Kv.Store.Canonical.{Keyed, compare_keyed, compare_keyed_trans, IsSorted, insert}
use repani.Kv.Store.MemStore.{place}

module _ (f : ℕ → Keyed) (k : Keyed) where
  abbrev below_k : ℕ → Bool
  below_k j = is_lt (compare_keyed (f j) k)

  pub Falls-sorted : (js : List ℕ) → IsSorted (map f js) → Falls below_k js
  Falls-sorted [] s = tt
  Falls-sorted (j ∷ js) (h, s) = (λ e. rest js e h, Falls-sorted js s)
    where
      rest :
          (is : List ℕ)
          → below_k j ≡ false
          → All (λ q. compare_keyed (f j) q ≡ lt) (map f is)
          → All (λ y. below_k y ≡ false) is
      rest [] e hs = tt
      rest (i ∷ is) e (hi, hs) =
          (ground (arith, compare_keyed_trans (f j) (f i) k hi), rest is e hs)

  -- Insertion at the end of the longest prefix that is below `k`.
  insert_cut :
      (i : ℕ) (js : List ℕ)
      → f i ≡ k
      → map f (take (count_while below_k js) js ++ (i ∷ drop (count_while below_k js) js))
        ≡ insert k (map f js)
  unfolding count_while insert
  insert_cut i [] e = ap (λ x. x ∷ []) e
  insert_cut i (j ∷ js) e = elim (Bool-cases (below_k j)) [
    | inl low ↦ rw low (ap (λ t. f j ∷ t) (insert_cut i js e))
    | inr high ↦ rw high (ap (λ x. x ∷ f j ∷ map f js) e)
  ]

  All_last :
      (P : Keyed → Type 0) (j : ℕ) (js : List ℕ)
      → All P (map f (j ∷ js))
      → P (f (get_or (j ∷ js) (length js) 0))
  All_last P j [] (h, _) = h
  All_last P j (j' ∷ js) (_, h) = All_last P j' js h

  below_by_trans : (j l : ℕ) → compare_keyed (f j) (f l) ≡ lt → below_k l ≡ true → below_k j ≡ true
  below_by_trans j l h b = ground (arith, compare_keyed_trans (f j) (f l) k h)

  -- Where the last one is below `k`, insertion is at the end.
  insert_end :
      (i j : ℕ) (js : List ℕ)
      → f i ≡ k
      → IsSorted (map f (j ∷ js))
      → below_k (get_or (j ∷ js) (length js) 0) ≡ true
      → map f ((j ∷ js) ++ i ∷ []) ≡ insert k (map f (j ∷ js))
  unfolding insert
  insert_end i j [] e s b = rw b (ap (λ x. f j ∷ x ∷ []) e)
  insert_end i j (j' ∷ js) e ((hj, hjs), s) b =
      let tail = insert_end i j' js e s b in
      let low : below_k j ≡ true =
        below_by_trans j (get_or (j' ∷ js) (length js) 0)
          (All_last (λ q. compare_keyed (f j) q ≡ lt) j' js (hj, hjs)) b in
      rw low (ap (λ t. f j ∷ t) tail)

  -- Both ways put the new index where a scan of the sorted set would.
  pub place-insert :
      (i : ℕ) (js : List ℕ)
      → f i ≡ k
      → IsSorted (map f js)
      → map f (place below_k i js) ≡ insert k (map f js)
  unfolding place
  place-insert i [] e s = unfold insert in ap (λ x. x ∷ []) e
  place-insert i (j ∷ js) e s =
      let n : suc (length js) - 1 ≡ length js = omega arith in
      let some_order : (suc (length js) == 0) ≡ false = ground arith in
      elim (Bool-cases (below_k (get_or (j ∷ js) (length js) 0))) [
        | inl fast ↦ rw (n, some_order, fast) (insert_end i j js e s fast)
        | inr slow ↦
            rw
              (
                n,
                some_order,
                slow,
                binary_search-count_while below_k (j ∷ js) (Falls-sorted (j ∷ js) s),
              )
              (insert_cut i (j ∷ js) e)
      ]
