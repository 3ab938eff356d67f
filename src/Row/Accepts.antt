-- ===== src/Row/Accepts.antt =====
-- The decoder on any tag: the item that it returns is valid, and the bytes that it took are its own.
use repani.Base.{
  ℕ, zero, suc, ◌+◌, ◌-◌, ◌≡◌, ◌≤◌, ◌<◌, inl, inr, refl, sym, ap, subst, false, [], ◌∷◌, ◌++◌, All,
  length, Bytes, IsByte, ltb, leb, ◌==◌, Bool-cases, Result, ok, ◌>>=◌, arith, tests,
}
use repani.Row.Varint.{RowError, uvarint, uvarint_bytes}
use repani.Row.Varint.RoundTrip.{uvarint_bytes-uvarint}
use repani.Row.Value.{
  Item, k_none, k_false, k_true, k_int, k_date, k_datetime, k_duration, day_ok, datetime_ok, IsItem,
}
use repani.Row.Encode.{item_bytes, max_short}
use repani.Row.Decode.{fail, read_length, long_string, compressed_string, tagged}
use repani.Row.Canonical.{
  bind_inv, IsBack, back, All-behind, read_length_inv, short-IsBack, long-IsBack, compressed-IsBack,
}
use repani.Row.Scalars.{
  signed-IsBack, tested-IsBack, time-IsBack, bytes-IsBack, decimal-IsBack, float-IsBack,
}

constant-IsBack :
    (j i : Item) (tag : ℕ) (b rest : Bytes)
    → IsItem j
    → item_bytes j ≡ tag ∷ []
    → ◌≡◌ {A = Result RowError (Item × Bytes)} (ok (j, b)) (ok (i, rest))
    → IsBack i tag b rest
constant-IsBack j i tag b rest v shape h = back i j tag b b rest h (v, ap (λ t. t ++ b) shape)

long_string-IsBack :
    (start : ℕ) (b rest : Bytes) (i : Item)
    → All IsByte b
    → ◌≡◌ {A = Result RowError (Item × Bytes)}
        (read_length start b >>= (λ (n, r). long_string start n r))
        (ok (i, rest))
    → IsBack i 254 b rest
long_string-IsBack start b rest i hb h =
    let ((n, r), e, e2) = bind_inv (read_length start b) _ (i, rest) h in
    let (size, held, written) = read_length_inv start n b r hb e in
    long-IsBack start n b r rest i size held written e2

packed-IsBack :
    (start : ℕ) (b rest : Bytes) (i : Item)
    → All IsByte b
    → ◌≡◌ {A = Result RowError (Item × Bytes)}
        (uvarint start b >>= (λ (u, r). compressed_string start u r))
        (ok (i, rest))
    → IsBack i 242 b rest
packed-IsBack start b rest i hb h =
    let ((u, r), e, e2) = bind_inv (uvarint start b) _ (i, rest) h in
    let (_, written) = uvarint_bytes-uvarint start u b r hb e in
    compressed-IsBack start u b r rest i (All-behind (uvarint_bytes u) r b written hb) written e2

-- The tags above the short strings', a list's left out.
data IsTag : ℕ → Type 0 where
  tag_242 : (t : ℕ) → t ≡ 242 → IsTag t
  tag_243 : (t : ℕ) → t ≡ 243 → IsTag t
  tag_244 : (t : ℕ) → t ≡ 244 → IsTag t
  tag_245 : (t : ℕ) → t ≡ 245 → IsTag t
  tag_246 : (t : ℕ) → t ≡ 246 → IsTag t
  tag_247 : (t : ℕ) → t ≡ 247 → IsTag t
  tag_248 : (t : ℕ) → t ≡ 248 → IsTag t
  tag_249 : (t : ℕ) → t ≡ 249 → IsTag t
  tag_250 : (t : ℕ) → t ≡ 250 → IsTag t
  tag_251 : (t : ℕ) → t ≡ 251 → IsTag t
  tag_252 : (t : ℕ) → t ≡ 252 → IsTag t
  tag_253 : (t : ℕ) → t ≡ 253 → IsTag t
  tag_254 : (t : ℕ) → t ≡ 254 → IsTag t

tags : (t : ℕ) → 242 ≤ t → t ≤ 254 → IsTag t
tags t lo hi = from (t - 242) (omega arith) (omega arith)
  where
    from : (k : ℕ) → t ≡ 242 + k → k ≤ 12 → IsTag t
    from zero e h = tag_242 t (omega arith)
    from (suc zero) e h = tag_243 t (omega arith)
    from (suc (suc zero)) e h = tag_244 t (omega arith)
    from (suc (suc (suc zero))) e h = tag_245 t (omega arith)
    from (suc (suc (suc (suc zero)))) e h = tag_246 t (omega arith)
    from (suc (suc (suc (suc (suc zero))))) e h = tag_247 t (omega arith)
    from (suc (suc (suc (suc (suc (suc zero)))))) e h = tag_248 t (omega arith)
    from (suc (suc (suc (suc (suc (suc (suc zero))))))) e h = tag_249 t (omega arith)
    from (suc (suc (suc (suc (suc (suc (suc (suc zero)))))))) e h = tag_250 t (omega arith)
    from (suc (suc (suc (suc (suc (suc (suc (suc (suc zero))))))))) e h = tag_251 t (omega arith)
    from (suc (suc (suc (suc (suc (suc (suc (suc (suc (suc zero)))))))))) e h =
        tag_252 t (omega arith)
    from (suc (suc (suc (suc (suc (suc (suc (suc (suc (suc (suc zero))))))))))) e h =
        tag_253 t (omega arith)
    from (suc (suc (suc (suc (suc (suc (suc (suc (suc (suc (suc (suc zero)))))))))))) e h =
        tag_254 t (omega arith)
    from (suc (suc (suc (suc (suc (suc (suc (suc (suc (suc (suc (suc (suc rest))))))))))))) e h =
        absurd (omega arith)

above-IsBack :
    (start tag : ℕ) (b rest : Bytes) (i : Item)
    → IsTag tag
    → All IsByte b
    → tagged start tag b ≡ ok (i, rest)
    → IsBack i tag b rest
unfolding tagged item_bytes
above-IsBack start tag b rest i (tag_242 _ e) hb h =
    subst (λ t. IsBack i t b rest) (sym e)
      (packed-IsBack start b rest i hb (subst (λ t. tagged start t b ≡ ok (i, rest)) e h))
above-IsBack start tag b rest i (tag_243 _ e) hb h =
    subst (λ t. IsBack i t b rest) (sym e)
      (constant-IsBack k_none i 243 b rest tt refl
        (subst (λ t. tagged start t b ≡ ok (i, rest)) e h))
above-IsBack start tag b rest i (tag_244 _ e) hb h =
    subst (λ t. IsBack i t b rest) (sym e)
      (constant-IsBack k_false i 244 b rest tt refl
        (subst (λ t. tagged start t b ≡ ok (i, rest)) e h))
above-IsBack start tag b rest i (tag_245 _ e) hb h =
    subst (λ t. IsBack i t b rest) (sym e)
      (constant-IsBack k_true i 245 b rest tt refl
        (subst (λ t. tagged start t b ≡ ok (i, rest)) e h))
above-IsBack start tag b rest i (tag_246 _ e) hb h =
    subst (λ t. IsBack i t b rest) (sym e)
      (signed-IsBack k_int start 246 b rest i (λ n r. r) (λ n. refl) hb
        (subst (λ t. tagged start t b ≡ ok (i, rest)) e h))
above-IsBack start tag b rest i (tag_247 _ e) hb h =
    subst (λ t. IsBack i t b rest) (sym e)
      (decimal-IsBack start b rest i hb (subst (λ t. tagged start t b ≡ ok (i, rest)) e h))
above-IsBack start tag b rest i (tag_248 _ e) hb h =
    subst (λ t. IsBack i t b rest) (sym e)
      (float-IsBack start b rest i hb (subst (λ t. tagged start t b ≡ ok (i, rest)) e h))
above-IsBack start tag b rest i (tag_249 _ e) hb h =
    subst (λ t. IsBack i t b rest) (sym e)
      (tested-IsBack k_date day_ok start 249 b rest i (λ n r t. (r, t)) (λ n. refl) hb
        (subst (λ t. tagged start t b ≡ ok (i, rest)) e h))
above-IsBack start tag b rest i (tag_250 _ e) hb h =
    subst (λ t. IsBack i t b rest) (sym e)
      (tested-IsBack k_datetime datetime_ok start 250 b rest i (λ n r t. (r, t)) (λ n. refl) hb
        (subst (λ t. tagged start t b ≡ ok (i, rest)) e h))
above-IsBack start tag b rest i (tag_251 _ e) hb h =
    subst (λ t. IsBack i t b rest) (sym e)
      (time-IsBack start b rest i hb (subst (λ t. tagged start t b ≡ ok (i, rest)) e h))
above-IsBack start tag b rest i (tag_252 _ e) hb h =
    subst (λ t. IsBack i t b rest) (sym e)
      (signed-IsBack k_duration start 252 b rest i (λ n r. r) (λ n. refl) hb
        (subst (λ t. tagged start t b ≡ ok (i, rest)) e h))
above-IsBack start tag b rest i (tag_253 _ e) hb h =
    subst (λ t. IsBack i t b rest) (sym e)
      (bytes-IsBack start b rest i hb (subst (λ t. tagged start t b ≡ ok (i, rest)) e h))
above-IsBack start tag b rest i (tag_254 _ e) hb h =
    subst (λ t. IsBack i t b rest) (sym e)
      (long_string-IsBack start b rest i hb (subst (λ t. tagged start t b ≡ ok (i, rest)) e h))

-- An accepted item, whose tag is not a list's.
pub tagged-IsBack :
    (start tag : ℕ) (b rest : Bytes) (i : Item)
    → tag < 256
    → (tag == 255) ≡ false
    → All IsByte b
    → tagged start tag b ≡ ok (i, rest)
    → IsBack i tag b rest
unfolding tagged fail
tagged-IsBack start tag b rest i ht no_list hb h = elim (Bool-cases (leb tag max_short)) [
  | inr above ↦ above-IsBack start tag b rest i (tags tag (ground arith) (ground arith)) hb h
  | inl short ↦ elim (Bool-cases (ltb (length b) tag)) [
    | inl past ↦ absurd (cc (rw (short, past) at h))
    | inr held ↦ short-IsBack start tag b rest i short (omega tests) (rw (short, held) at h)
  ]
]
