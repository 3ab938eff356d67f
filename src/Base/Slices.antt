-- ===== src/Base/Slices.antt =====
-- Go's `copy` into a slice: `copy(dst[i:], src)` writes as much of `src` as fits.
use mathlib.Core.Path.{◌≡◌, refl, ap, sym, ◌∙◌}
use mathlib.Core.List.{List, ◌++◌, append_assoc}
use Prim.Native.Nat.{ℕ, zero, suc, ◌+◌, ◌-◌}
use native.Mathlib.Omega.{arith}
use package.repani.Base.Lists.{
  length, take, drop, replicate, length-append, length-replicate, take-append, drop-append,
  drop-drop, take_all,
}

module _ {ℓ} {A : Type ℓ} where
  abbrev pub write_at : ℕ → List A → List A → List A
  write_at i src dst = take i dst ++ (take (length dst - i) src ++ drop (i + length src) dst)

  drop-replicate : (n k : ℕ) (z : A) → drop n (replicate k z) ≡ replicate (k - n) z
  drop-replicate zero k z = ap (λ j. replicate j z) (let e : k ≡ k - 0 = omega arith in e)
  drop-replicate (suc n) zero z = ap (λ j. replicate j z) (let e : 0 ≡ 0 - suc n = omega arith in e)
  drop-replicate (suc n) (suc k) z =
      drop-replicate n k z
      ∙ ap (λ j. replicate j z) (let e : k - n ≡ suc k - suc n = omega arith in e)

  -- Into a buffer whose first `n` bytes are written, and the others zero, a write at `n` appends.
  pub write_at-append :
      (n k j : ℕ) (z : A) (xs src : List A)
      → length xs ≡ n
      → length src + j ≡ k
      → write_at n src (xs ++ replicate k z) ≡ (xs ++ src) ++ replicate j z
  write_at-append n k j z xs src e h =
      rw
        (
          take-append n xs (replicate k z) e,
          take_all (length (xs ++ replicate k z) - n) src
              (omega (arith, length-append xs (replicate k z), length-replicate k z)),
          ← drop-drop (length src) n (n + length src) (xs ++ replicate k z) refl,
          drop-append n xs (replicate k z) e,
          drop-replicate (length src) k z,
          let j' : k - length src ≡ j = omega arith in j',
        )
        (sym (append_assoc xs src (replicate j z)))
