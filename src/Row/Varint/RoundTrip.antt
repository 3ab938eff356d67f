-- ===== src/Row/Varint/RoundTrip.antt =====
-- uvarint against AppendUvarint, both ways.
use repani.Base.{
  ℕ, zero, suc, ◌+◌, ◌*◌, ◌/◌, ◌%◌, ◌^◌, ◌≡◌, ◌≤◌, ◌<◌, ◌⊎◌, inl, inr, refl, sym, ap, ◌∙◌, true,
  false, ◌&&◌, [], ◌∷◌, ◌++◌, Bytes, IsByte, All, ltb, ◌==◌, Bool-cases, ok, arith, tests,
}
use native.Mathlib.Nat.{pow-suc, add-mul, mul_assoc, one-le-pow}
use repani.Row.Varint.{put_uvarint, uvarint_bytes, uvarint_loop, uvarint}

-- A number whose low seven bits are `l`, at a scale.
at_scale : (l h s : ℕ) → l * s + h * (128 * s) ≡ (l + h * 128) * s
at_scale l h s = omega (arith, add-mul l (h * 128) s, mul_assoc h 128 s)

next_scale : (i : ℕ) → 2 ^ (7 * (i + 1)) ≡ 128 * 2 ^ (7 * i)
next_scale i =
    let n = 7 * i in
    ap (λ e. 2 ^ e)
      (let e : 7 * (i + 1) ≡ suc (suc (suc (suc (suc (suc (suc n)))))) = omega arith in e)
    ∙ omega (
      arith,
      pow-suc 2 n,
      pow-suc 2 (suc n),
      pow-suc 2 (suc (suc n)),
      pow-suc 2 (suc (suc (suc n))),
      pow-suc 2 (suc (suc (suc (suc n)))),
      pow-suc 2 (suc (suc (suc (suc (suc n))))),
      pow-suc 2 (suc (suc (suc (suc (suc (suc n)))))),
    )

step_value :
    (u l h i : ℕ) → u + l * 2 ^ (7 * i) + h * 2 ^ (7 * (i + 1)) ≡ u + (l + h * 128) * 2 ^ (7 * i)
step_value u l h i =
    ap (λ s. u + l * 2 ^ (7 * i) + h * s) (next_scale i) ∙ omega (arith, at_scale l h (2 ^ (7 * i)))

put_small : (f v : ℕ) → v < 128 → put_uvarint f v ≡ v ∷ []
unfolding put_uvarint
put_small zero v h = ap (λ b. b ∷ []) (omega arith)
put_small (suc f) v h = ground arith

put_large : (f v : ℕ) → 128 ≤ v → put_uvarint (suc f) v ≡ (v % 128 + 128) ∷ put_uvarint f (v / 128)
unfolding put_uvarint
put_large f v h = ground arith

loop_last :
    (more start i u c : ℕ) (rest : Bytes)
    → c < 128
    → (i ≡ 0) ⊎ (0 < c)
    → uvarint_loop (suc more) start i u (c ∷ rest) ≡ ok (u + c * 2 ^ (7 * i), rest)
unfolding uvarint_loop
loop_last more start i u c rest h shortest =
    let low : c % 128 ≡ c = omega arith in
    let small : ltb c 128 ≡ true = ground arith in
    let short : (c == 0 && ltb 0 i) ≡ false = ground arith in rw (low, small, short) refl

loop_more :
    (more start i u c : ℕ) (rest : Bytes)
    → 128 ≤ c
    → uvarint_loop (suc more) start i u (c ∷ rest)
      ≡ uvarint_loop more start (i + 1) (u + c % 128 * 2 ^ (7 * i)) rest
unfolding uvarint_loop
loop_more more start i u c rest h = let large : ltb c 128 ≡ false = ground arith in rw large refl

loop-put :
    (k f start i u v : ℕ) (rest : Bytes)
    → k ≤ f
    → v < 128 ^ suc k
    → (i ≡ 0) ⊎ (0 < v)
    → uvarint_loop (suc k) start i u (put_uvarint f v ++ rest) ≡ ok (u + v * 2 ^ (7 * i), rest)
loop-put zero f start i u v rest hf hv shortest =
    ap (λ t. uvarint_loop 1 start i u (t ++ rest)) (put_small f v (omega arith))
    ∙ loop_last zero start i u v rest (omega arith) shortest
loop-put (suc k) zero start i u v rest hf hv shortest = absurd (omega arith)
loop-put (suc k) (suc f) start i u v rest hf hv shortest = elim (Bool-cases (ltb v 128)) [
  | inl small ↦
      ap (λ t. uvarint_loop (suc (suc k)) start i u (t ++ rest)) (put_small (suc f) v (omega tests))
      ∙ loop_last (suc k) start i u v rest (omega tests) shortest
  | inr large ↦
      let low : (v % 128 + 128) % 128 ≡ v % 128 = omega arith in
      ap (λ t. uvarint_loop (suc (suc k)) start i u (t ++ rest)) (put_large f v (omega tests))
      ∙ loop_more (suc k) start i u (v % 128 + 128) (put_uvarint f (v / 128) ++ rest) (omega arith)
      ∙ ap
          (λ l.
            uvarint_loop (suc k) start (i + 1) (u + l * 2 ^ (7 * i))
              (put_uvarint f (v / 128) ++ rest))
          low
      ∙ loop-put k f start (i + 1) (u + v % 128 * 2 ^ (7 * i)) (v / 128) rest (omega arith)
          (omega (arith, pow-suc 128 (suc k))) (inr (omega tests))
      ∙ ap (λ (w : ℕ). ok (w, rest))
          (step_value u (v % 128) (v / 128) i ∙ ap (λ n. u + n * 2 ^ (7 * i)) (omega arith))
]

-- uvarint reads back every number below 2^56, the most that eight bytes hold, from the bytes of
-- AppendUvarint, whatever follows them.
pub uvarint-uvarint_bytes :
    (start v : ℕ) (rest : Bytes)
    → v < 2 ^ 56
    → uvarint start (uvarint_bytes v ++ rest) ≡ ok (v, rest)
unfolding uvarint uvarint_bytes
uvarint-uvarint_bytes start v rest h =
    loop-put 7 9 start 0 0 v rest (omega arith) (omega arith) (inl refl)
    ∙ ap (λ (w : ℕ). ok (w, rest)) (omega arith)

-- What a run of the loop from round `i` on has read: a number at its scale, in its shortest form.
record IsRead (k f i u : ℕ) (b : Bytes) (w : ℕ) (rest : Bytes) : Type 0 where
  value : ℕ
  scaled : w ≡ u + value * 2 ^ (7 * i)
  shortest : (i ≡ 0) ⊎ (0 < value)
  bound : value < 128 ^ k
  written : put_uvarint f value ++ rest ≡ b

IsRead-more :
    (k f i u c w : ℕ) (b rest : Bytes)
    → 128 ≤ c
    → c < 256
    → IsRead k f (i + 1) (u + c % 128 * 2 ^ (7 * i)) b w rest
    → IsRead (suc k) (suc f) i u (c ∷ b) w rest
IsRead-more k f i u c w b rest lo hi r =
    let positive : 0 < r.value = elim r.shortest [
      | inl at_start ↦ absurd (omega arith)
      | inr more ↦ more
    ] in
    let v = c % 128 + r.value * 128 in
    let low : v % 128 + 128 ≡ c = omega arith in
    let high : v / 128 ≡ r.value = omega arith in
    record {
      value = v;
      scaled = r.scaled ∙ step_value u (c % 128) r.value i;
      shortest = inr (omega arith);
      bound = omega (arith, pow-suc 128 k, r.bound);
      written =
          ap (λ t. t ++ rest) (put_large f v (omega arith))
          ∙ ap (λ t. t ∷ (put_uvarint f (v / 128) ++ rest)) low
          ∙ ap (λ h. c ∷ (put_uvarint f h ++ rest)) high
          ∙ ap (λ t. c ∷ t) r.written;
    }

uvarint_loop_inv :
    (k f start i u w : ℕ) (b rest : Bytes)
    → k ≤ suc f
    → All IsByte b
    → uvarint_loop k start i u b ≡ ok (w, rest)
    → IsRead k f i u b w rest
unfolding uvarint_loop
uvarint_loop_inv zero f start i u w b rest hf hb h = absurd (cc h)
uvarint_loop_inv (suc k) f start i u w [] rest hf hb h = absurd (cc h)
uvarint_loop_inv (suc k) f start i u w (c ∷ b) rest hf (hc, hb) h = elim (Bool-cases (ltb c 128)) [
  | inl small ↦ elim (Bool-cases (c == 0 && ltb 0 i)) [
    | inl longer ↦ absurd (cc (rw (small, longer) at h))
    | inr short ↦
        let h2 = rw (small, short) at h in
        let value : w ≡ u + c % 128 * 2 ^ (7 * i) = cc h2 in
        let behind : b ≡ rest = cc h2 in
        record {
          value = c;
          scaled = value ∙ ap (λ l. u + l * 2 ^ (7 * i)) (omega tests);
          shortest = ground arith;
          bound = omega (tests, pow-suc 128 k, one-le-pow k 128 (omega arith));
          written =
              ap (λ t. t ++ rest) (put_small f c (omega tests)) ∙ ap (λ t. c ∷ t) (sym behind);
        }
  ]
  | inr large ↦
      larger k f hf (omega tests) (rw large at h)
        (λ f2 hf2 h2. uvarint_loop_inv k f2 start (i + 1) _ w b rest hf2 hb h2)
]
  where
    larger :
        (k f : ℕ)
        → suc k ≤ suc f
        → 128 ≤ c
        → uvarint_loop k start (i + 1) (u + c % 128 * 2 ^ (7 * i)) b ≡ ok (w, rest)
        → ((f2 : ℕ)
            → k ≤ suc f2
            → uvarint_loop k start (i + 1) (u + c % 128 * 2 ^ (7 * i)) b ≡ ok (w, rest)
            → IsRead k f2 (i + 1) (u + c % 128 * 2 ^ (7 * i)) b w rest)
        → IsRead (suc k) f i u (c ∷ b) w rest
    larger zero f hf lo h ih = absurd (cc h)
    larger (suc k) zero hf lo h ih = absurd (omega arith)
    larger (suc k) (suc f) hf lo h ih =
        IsRead-more (suc k) f i u c w b rest lo hc (ih f (omega arith) h)

-- What uvarint accepts from a byte slice is a number below 2^56, and the bytes that it took are those
-- that AppendUvarint writes, so a number has one encoding.
pub uvarint_bytes-uvarint :
    (start v : ℕ) (b rest : Bytes)
    → All IsByte b
    → uvarint start b ≡ ok (v, rest)
    → (v < 2 ^ 56) × (uvarint_bytes v ++ rest ≡ b)
unfolding uvarint uvarint_bytes
uvarint_bytes-uvarint start v b rest hb h =
    let r = uvarint_loop_inv 8 9 start 0 0 v b rest (omega arith) hb h in
    let e : r.value ≡ v = omega (arith, r.scaled) in
    (omega (arith, r.bound, e), ap (λ n. put_uvarint 9 n ++ rest) (sym e) ∙ r.written)
