-- ===== src/Row/Zigzag/RoundTrip.antt =====
-- Signed numbers written and read back, both ways.
use repani.Base.{
  ℕ, ◌+◌, ◌*◌, ◌/◌, ◌%◌, ◌^◌, ◌≡◌, ◌≤◌, ◌<◌, inl, inr, refl, sym, ap, subst, ◌∙◌, true, false,
  Bytes, IsByte, All, ◌++◌, ltb, ◌==◌, Bool-cases, ok, Result-cases, arith, tests,
}
use repani.Row.Int.{ℤ, pos, negsuc}
use repani.Row.Varint.{uvarint, uvarint_bytes}
use repani.Row.Varint.RoundTrip.{uvarint-uvarint_bytes, uvarint_bytes-uvarint}
use repani.Row.Zigzag.{max_int, zigzag, unzigzag, signed, signed_bytes, in_range_number, InRange}

zigzag-pos : (n : ℕ) → n < 2 ^ 63 → zigzag (pos n) ≡ 2 * n
unfolding zigzag
zigzag-pos n h = omega arith

zigzag-negsuc : (n : ℕ) → n < 2 ^ 63 → zigzag (negsuc n) ≡ 2 * n + 1
unfolding zigzag
zigzag-negsuc n h = omega arith

unzigzag-even : (n : ℕ) → unzigzag (2 * n) ≡ pos n
unfolding unzigzag
unzigzag-even n =
    let even : (2 * n % 2 == 1) ≡ false = ground arith in rw even (ap pos (omega arith))

unzigzag-odd : (n : ℕ) → unzigzag (2 * n + 1) ≡ negsuc n
unfolding unzigzag
unzigzag-odd n =
    let odd : ((2 * n + 1) % 2 == 1) ≡ true = ground arith in rw odd (ap negsuc (omega arith))

in_range : (n : ℤ) → InRange n → (unzigzag (zigzag n) ≡ n) × (zigzag n ≤ 2 * max_int)
in_range (pos n) h = (
  ap unzigzag (zigzag-pos n (omega arith)) ∙ unzigzag-even n,
  omega (arith, zigzag-pos n (omega arith)),
)
in_range (negsuc n) h = (
  ap unzigzag (zigzag-negsuc n (omega arith)) ∙ unzigzag-odd n,
  omega (arith, zigzag-negsuc n (omega arith)),
)

-- signed reads back every number within ±(2^53-1) from its zigzag varint, whatever follows.
pub signed-signed_bytes :
    (start : ℕ) (n : ℤ) (rest : Bytes)
    → InRange n
    → signed start (signed_bytes n ++ rest) ≡ ok (n, rest)
unfolding signed signed_bytes in_range_number
signed-signed_bytes start n rest h =
    let (back, fits) = in_range n h in
    let small : ltb (2 * max_int) (zigzag n) ≡ false = ground arith in
    rw (signed, uvarint-uvarint_bytes start (zigzag n) rest (omega arith), small, back) refl

zigzag-unzigzag : (u : ℕ) → u ≤ 2 * max_int → InRange (unzigzag u) × (zigzag (unzigzag u) ≡ u)
unfolding unzigzag
zigzag-unzigzag u h = elim (Bool-cases (u % 2 == 1)) [
  | inl odd ↦ rw odd (ground arith, zigzag-negsuc (u / 2) (omega arith) ∙ ground arith)
  | inr even ↦ rw even (omega arith, zigzag-pos (u / 2) (omega arith) ∙ ground arith)
]

-- What signed accepts from a byte slice is a number within ±(2^53-1), and the bytes that it took are
-- that number's zigzag varint, so a number has one encoding.
pub signed_bytes-signed :
    (start : ℕ) (n : ℤ) (b rest : Bytes)
    → All IsByte b
    → signed start b ≡ ok (n, rest)
    → InRange n × (signed_bytes n ++ rest ≡ b)
unfolding signed signed_bytes in_range_number
signed_bytes-signed start n b rest hb h = elim (Result-cases (uvarint start b)) [
  | inr (e, refused) ↦ absurd (cc (rw (signed, refused) at h))
  | inl ((u, behind), accepted) ↦
      let (bound, written) = uvarint_bytes-uvarint start u b behind hb accepted in
      elim (Bool-cases (ltb (2 * max_int) u)) [
        | inl beyond ↦ absurd (cc (rw (signed, accepted, beyond) at h))
        | inr within ↦
            let h2 = rw (signed, accepted, within) at h in
            let number : unzigzag u ≡ n = cc h2 in
            let left : behind ≡ rest = cc h2 in
            let (range, back) = zigzag-unzigzag u (omega tests) in
            (
              subst InRange number range,
              ap (λ m. uvarint_bytes (zigzag m) ++ rest) (sym number)
                  ∙ ap (λ m. uvarint_bytes m ++ rest) back
                  ∙ ap (λ t. uvarint_bytes u ++ t) (sym left)
                  ∙ written,
            )
      ]
]
