-- ===== src/Base/Search.antt =====
-- slices.BinarySearchFunc, over the test `cmp(x[h], target) < 0` of each index.
use Prim.Native.Nat.{ℕ, zero, suc, ◌+◌, ◌/◌, ◌≤◌, ◌<◌}
use mathlib.Core.Path.{◌≡◌, refl, ap}
use mathlib.Core.Bool.{Bool, true, false}
use mathlib.Core.List.{List, [], ◌∷◌}
use mathlib.Core.Option.{none, some}
use mathlib.Core.Logic.{inl, inr}
use native.Mathlib.Omega.{arith}
use package.repani.Base.Tests.{ltb, if◌then◌else◌, Bool-cases, ltb→lt, ltb_false→le}
use package.repani.Base.Lists.{length, get_elem?, All}

-- Each round halves `j - i`, so as many rounds as the slice is long are enough.
unfoldable pub search_loop : ℕ → (ℕ → Bool) → ℕ → ℕ → ℕ
search_loop zero below i j = i
search_loop (suc f) below i j =
    let h = (i + j) / 2 in
    let rest = search_loop f below (if below h then h + 1 else i) (if below h then j else h) in
    if ltb i j then rest else i

-- The tests of a sorted slice: true up to some index, and false from there on.
pub IsCut : (ℕ → Bool) → ℕ → ℕ → Type 0
IsCut below n r =
    (r ≤ n) × ((a : ℕ) → a < r → below a ≡ true) × ((a : ℕ) → r ≤ a → a < n → below a ≡ false)

module _ (below : ℕ → Bool) (n : ℕ)
    (sorted : (a b : ℕ) → a ≤ b → b < n → below b ≡ true → below a ≡ true) where
  above_cut : (h a : ℕ) → below h ≡ false → h ≤ a → a < n → below a ≡ false
  above_cut h a no_h p q = elim (Bool-cases (below a)) [
    | inl is_below ↦ absurd (ground (arith, sorted h a p q is_below))
    | inr above ↦ above
  ]

  IsCut-end :
      (i j : ℕ)
      → j ≤ i
      → i ≤ j
      → j ≤ n
      → ((a : ℕ) → a < i → below a ≡ true)
      → ((a : ℕ) → j ≤ a → a < n → below a ≡ false)
      → IsCut below n i
  unfolding IsCut
  IsCut-end i j h ij jn lo hi = (omega arith, lo, λ a p q. hi a (omega arith) q)

  pub search_loop-IsCut :
      (f i j : ℕ)
      → j ≤ i + f
      → i ≤ j
      → j ≤ n
      → ((a : ℕ) → a < i → below a ≡ true)
      → ((a : ℕ) → j ≤ a → a < n → below a ≡ false)
      → IsCut below n (search_loop f below i j)
  unfolding search_loop
  search_loop-IsCut zero i j hf ij jn lo hi = IsCut-end i j (omega arith) ij jn lo hi
  search_loop-IsCut (suc f) i j hf ij jn lo hi =
      let h = (i + j) / 2 in
      elim (Bool-cases (ltb i j)) [
        | inr done ↦ rw done (IsCut-end i j (ltb_false→le i j done) ij jn lo hi)
        | inl more ↦
            let i_lt_j = ltb→lt i j more in
            elim (Bool-cases (below h)) [
              | inl low ↦
                  rw (more, low)
                    (search_loop-IsCut f (h + 1) j (omega arith) (omega arith) jn
                      (λ a p. sorted a h (omega arith) (omega arith) low) hi)
              | inr high ↦
                  rw (more, high)
                    (search_loop-IsCut f i h (omega arith) (omega arith) (omega arith) lo
                      (λ a p q. above_cut h a high p q))
            ]
      ]

-- The length of the longest prefix whose elements pass the test.
module _ {ℓ} {A : Type ℓ} (test : A → Bool) where
  unfoldable pub count_while : List A → ℕ
  count_while [] = 0
  count_while (x ∷ xs) = if test x then suc (count_while xs) else 0

  -- The test at an index; out of range nothing is below.
  abbrev pub test_at : List A → ℕ → Bool
  test_at xs i = elim (get_elem? xs i) [ none ↦ false | some x ↦ test x ]

  -- slices.BinarySearchFunc's index, over the whole slice.
  unfoldable pub binary_search : List A → ℕ
  unfolding search_loop
  binary_search xs = search_loop (length xs) (test_at xs) 0 (length xs)

  pub IsCut-count_while :
      (xs : List A) (r : ℕ) → IsCut (test_at xs) (length xs) r → r ≡ count_while xs
  unfolding IsCut count_while
  IsCut-count_while [] r (h, _, _) = omega arith
  IsCut-count_while (x ∷ xs) zero (h, _, above) = rw (above 0 (omega arith) (omega arith)) refl
  IsCut-count_while (x ∷ xs) (suc r) (h, low, above) = rw (low 0 (omega arith)) (
      ap suc (
        IsCut-count_while xs r (
          omega arith,
          λ a p. low (suc a) (omega arith),
          λ a p q. above (suc a) (omega arith) (omega arith),
        )))

  -- Once the test fails it fails for the rest of the list.
  abbrev pub Falls : List A → Type ℓ
  Falls [] = Unit
  Falls (x ∷ xs) = (test x ≡ false → All (λ y. test y ≡ false) xs) × Falls xs

  All-at : (xs : List A) (i : ℕ) → All (λ y. test y ≡ false) xs → test_at xs i ≡ false
  All-at [] i h = refl
  All-at (x ∷ xs) zero (h, hs) = h
  All-at (x ∷ xs) (suc i) (h, hs) = All-at xs i hs

  Falls-at : (xs : List A) (a b : ℕ) → Falls xs → a ≤ b → test_at xs b ≡ true → test_at xs a ≡ true
  Falls-at [] a b f p t = t
  Falls-at (x ∷ xs) zero zero f p t = t
  Falls-at (x ∷ xs) (suc a) zero f p t = absurd (omega arith)
  Falls-at (x ∷ xs) (suc a) (suc b) (_, f) p t = Falls-at xs a b f (omega arith) t
  Falls-at (x ∷ xs) zero (suc b) (f, _) p t = elim (Bool-cases (test x)) [
    | inl e ↦ e
    | inr e ↦ cc (All-at xs b (f e))
  ]

  -- On a sorted slice the search finds the first index at which the test fails.
  pub binary_search-count_while : (xs : List A) → Falls xs → binary_search xs ≡ count_while xs
  unfolding binary_search
  binary_search-count_while xs f = IsCut-count_while xs _ (
      search_loop-IsCut (test_at xs) (length xs) (λ a b p q t. Falls-at xs a b f p t) (length xs) 0
        (length xs) (omega arith) (omega arith) (omega arith) (λ a p. absurd (omega arith))
        (λ a p q. absurd (omega arith)))
