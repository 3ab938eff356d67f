-- ===== src/Lz4s/Copies.antt =====
-- The back-reference of lz4s's decoder: what its byte-serial forward copy makes, also where the copy
-- overlaps what it writes.
use repani.Base.{
  ℕ, zero, suc, ◌+◌, ◌-◌, ◌≡◌, ◌≤◌, ◌<◌, ◌⊎◌, inl, inr, refl, sym, ap, ◌∙◌, [], ◌∷◌, ◌++◌, length,
  length-append, get_or, get_or-append, get_or-append_end, ltb, Bytes, Bool-cases, Option, none,
  some, arith, tests,
}
use repani.Lz4s.Decoder.{copy_match, apply_match}
use repani.Lz4s.Consumed.{length-copy_match}

-- `longer` is `out` with `len` bytes behind it, each of which is the byte `dist` before it.
pub record IsCopied (dist len : ℕ) (out longer : Bytes) : Type 0 where
  pub grown : length longer ≡ length out + len
  pub kept : (j : ℕ) → j < length out → get_or longer j 0 ≡ get_or out j 0
  pub copied :
      (i : ℕ) → i < len → get_or longer (length out + i) 0 ≡ get_or longer (length out + i - dist) 0

get_or-copy_match_old :
    (n dist : ℕ) (out : Bytes) (j : ℕ)
    → j < length out
    → get_or (copy_match n dist out) j 0 ≡ get_or out j 0
unfolding copy_match
get_or-copy_match_old zero dist out j h = refl
get_or-copy_match_old (suc n) dist out j h =
    let b = get_or out (length out - dist) 0 in
    get_or-copy_match_old n dist (out ++ b ∷ []) j (omega (arith, length-append out (b ∷ [])))
    ∙ get_or-append j out (b ∷ []) 0 h

get_or-copy_match :
    (n dist : ℕ) (out : Bytes) (i : ℕ)
    → 1 ≤ dist
    → dist ≤ length out
    → i < n
    → get_or (copy_match n dist out) (length out + i) 0
      ≡ get_or (copy_match n dist out) (length out + i - dist) 0
unfolding copy_match
get_or-copy_match zero dist out i hd ho h = absurd (omega arith)
get_or-copy_match (suc n) dist out zero hd ho h =
    let b = get_or out (length out - dist) 0 in
    let more : length (out ++ b ∷ []) ≡ length out + 1 =
      omega (arith, length-append out (b ∷ [])) in
    let last : get_or (copy_match n dist (out ++ b ∷ [])) (length out) 0 ≡ b =
      get_or-copy_match_old n dist (out ++ b ∷ []) (length out) (omega arith)
      ∙ get_or-append_end (length out) out b 0 refl in
    let source : get_or (copy_match n dist (out ++ b ∷ [])) (length out - dist) 0 ≡ b =
      get_or-copy_match_old n dist (out ++ b ∷ []) (length out - dist) (omega arith)
      ∙ get_or-append (length out - dist) out (b ∷ []) 0 (omega arith) in
    let here : length out + 0 ≡ length out = omega arith in rw here (last ∙ sym source)
get_or-copy_match (suc n) dist out (suc i) hd ho h =
    let b = get_or out (length out - dist) 0 in
    let shifted : length (out ++ b ∷ []) + i ≡ length out + suc i =
      omega (arith, length-append out (b ∷ [])) in
    ap (λ (k : ℕ). get_or (copy_match n dist (out ++ b ∷ [])) k 0) (sym shifted)
    ∙ get_or-copy_match n dist (out ++ b ∷ []) i hd (omega (arith, length-append out (b ∷ [])))
        (omega arith)
    ∙ ap (λ (k : ℕ). get_or (copy_match n dist (out ++ b ∷ [])) (k - dist) 0) shifted

-- A back-reference that is refused, and one that is applied.
abbrev pub IsApplied : ℕ → ℕ → ℕ → Bytes → Option Bytes → Type 0
IsApplied dsize dist len out none = (length out < dist) ⊎ (dsize < length out + len)
IsApplied dsize dist len out (some longer) =
    (dist ≤ length out) × (length out + len ≤ dsize) × IsCopied dist len out longer

-- For a distance of one or more, the decoder refuses a back-reference exactly where it reaches in front
-- of the output or past the size, and else keeps the output and appends the bytes of the length, each
-- of which is the byte that lies the distance before it, also where the copy reads what it wrote.
pub apply_match_lem :
    (dsize dist len : ℕ) (out : Bytes)
    → 1 ≤ dist
    → IsApplied dsize dist len out (apply_match dsize dist len out)
unfolding apply_match
apply_match_lem dsize dist len out hd = elim (Bool-cases (ltb (length out) dist)) [
  | inl far ↦ rw (apply_match, far) (inl (omega (tests, far)))
  | inr near ↦ elim (Bool-cases (ltb dsize (length out + len))) [
    | inl big ↦ rw (apply_match, near, big) (inr (omega (tests, big)))
    | inr small ↦
        let at_hand : dist ≤ length out = omega (tests, near) in
        rw (apply_match, near, small)
          (
            at_hand,
            omega (tests, small),
            record {
              grown = length-copy_match len dist out;
              kept = λ j h. get_or-copy_match_old len dist out j h;
              copied = λ i h. get_or-copy_match len dist out i hd at_hand h;
            },
          )
  ]
]
