-- ===== src/Lz4s/Consumed.antt =====
-- How much of the stream each part of a sequence takes, and how much it may put out.
use repani.Base.{
  ℕ, zero, suc, ◌+◌, ◌-◌, ◌/◌, ◌%◌, ◌^◌, ◌≡◌, ◌≤◌, inl, inr, false, ◌||◌, [], ◌∷◌, ◌++◌, length,
  take, get_or, length-append, length-drop, length-take, Bytes, ltb, ◌==◌, Bool-cases, Option-cases,
  Option, none, some, arith,
}
use repani.Lz4s.Decoder.{
  read_ext, literal_length, take_literals, read_distance, match_length, copy_match, apply_match,
  take_match,
}

-- What a decoder step leaves of the stream is no longer than what it got.
abbrev pub Shorter : {A : Type 0} → ℕ → Option (A × Bytes) → Type 0
Shorter n none = Unit
Shorter n (some (a, r)) = length r ≤ n

pub read_ext-Shorter : (rest : Bytes) (l : ℕ) → Shorter (length rest) (read_ext rest l)
unfolding read_ext
read_ext-Shorter [] l = tt
read_ext-Shorter (b ∷ rest) l = elim (Bool-cases (b == 255)) [
  | inl long ↦
      rw long (weaken (length rest) (read_ext rest (l + b)) (read_ext-Shorter rest (l + b)))
  | inr ended ↦ rw ended (omega arith)
]
  where
    weaken : (n : ℕ) (r : Option (ℕ × Bytes)) → Shorter n r → Shorter (suc n) r
    weaken n none h = tt
    weaken n (some (a, r)) h = omega arith

pub literal_length-Shorter :
    (token : ℕ) (rest : Bytes) → Shorter (length rest) (literal_length token rest)
unfolding literal_length
literal_length-Shorter token rest = elim (Bool-cases (token / 2 ^ 4 % 8 == 7)) [
  | inl long ↦ rw long (read_ext-Shorter rest 7)
  | inr short ↦ rw short (omega arith)
]

pub match_length-Shorter : (m : ℕ) (rest : Bytes) → Shorter (length rest) (match_length m rest)
unfolding match_length
match_length-Shorter m rest = elim (Bool-cases (m == 15)) [
  | inl long ↦ rw long (read_ext-Shorter rest 17)
  | inr short ↦ rw short (omega arith)
]

pub read_distance-Shorter :
    (token : ℕ) (rest : Bytes) → Shorter (length rest) (read_distance token rest)
unfolding read_distance
read_distance-Shorter token [] = elim (Bool-cases (token / 2 ^ 7 % 2 == 1)) [
  | inl wide ↦ rw wide tt
  | inr slim ↦ rw slim tt
]
read_distance-Shorter token (b ∷ []) = elim (Bool-cases (token / 2 ^ 7 % 2 == 1)) [
  | inl wide ↦ rw wide tt
  | inr slim ↦ rw slim (omega arith)
]
read_distance-Shorter token (b ∷ c ∷ rest) = elim (Bool-cases (token / 2 ^ 7 % 2 == 1)) [
  | inl wide ↦
      rw (wide, let e : ltb (length (b ∷ c ∷ rest)) 2 ≡ false = ground arith in e) (omega arith)
  | inr slim ↦
      rw (slim, let e : ltb (length (b ∷ c ∷ rest)) 1 ≡ false = ground arith in e) (omega arith)
]

pub length-copy_match : (n dist : ℕ) (out : Bytes) → length (copy_match n dist out) ≡ length out + n
unfolding copy_match
length-copy_match zero dist out = omega arith
length-copy_match (suc n) dist out =
    let b = get_or out (length out - dist) 0 in
    omega (arith, length-copy_match n dist (out ++ b ∷ []), length-append out (b ∷ []))

-- A step leaves at most `n` bytes of the stream, and its output is at most `dsize` bytes.
abbrev pub Within : ℕ → ℕ → Option (Bytes × Bytes) → Type 0
Within n dsize none = Unit
Within n dsize (some (r, out)) = (length r ≤ n) × (length out ≤ dsize)

pub take_literals-Within :
    (n dsize l : ℕ) (rest out : Bytes)
    → length rest ≤ n
    → length out ≤ dsize
    → Within n dsize (take_literals dsize l rest out)
unfolding take_literals
take_literals-Within n dsize l rest out hr ho = elim (Bool-cases (ltb 0 l)) [
  | inr nothing ↦ rw nothing (hr, ho)
  | inl some_lits ↦ elim (Bool-cases (ltb (length rest) l || ltb dsize (length out + l))) [
    | inl over ↦ rw (some_lits, over) tt
    | inr fits ↦
        rw (some_lits, fits)
          (
            omega (arith, length-drop l rest),
            ground (arith, length-append out (take l rest), length-take l rest),
          )
  ]
]

pub apply_match-fits :
    (dsize dist len : ℕ) (out longer : Bytes)
    → apply_match dsize dist len out ≡ some longer
    → length longer ≤ dsize
unfolding apply_match
apply_match-fits dsize dist len out longer h =
    elim (Bool-cases (ltb (length out) dist || ltb dsize (length out + len))) [
      | inl over ↦ absurd (cc (rw over at h))
      | inr fits ↦ ground (arith, length-copy_match len dist out)
    ]

module _ (n dsize : ℕ) (out : Bytes) where
  copied : ℕ → ℕ → Bytes → Option (Bytes × Bytes)
  copied dist len r2 = elim (apply_match dsize dist len out) [
    | none ↦ none
    | some longer ↦ some (r2, longer)
  ]

  copied-Within : (dist len : ℕ) (r2 : Bytes) → length r2 ≤ n → Within n dsize (copied dist len r2)
  unfolding copied
  copied-Within dist len r2 h = elim (Option-cases (apply_match dsize dist len out)) [
    | inl refused ↦ rw (copied, refused) tt
    | inr (longer, e) ↦ rw (copied, e) (h, apply_match-fits dsize dist len out longer e)
  ]

  measured : ℕ → Option (ℕ × Bytes) → Option (Bytes × Bytes)
  unfolding copied
  measured dist none = none
  measured dist (some (len, r2)) = copied dist len r2

  measured-Within :
      (dist : ℕ) (r : Option (ℕ × Bytes)) → Shorter n r → Within n dsize (measured dist r)
  unfolding measured
  measured-Within dist none h = tt
  measured-Within dist (some (len, r2)) h = copied-Within dist len r2 h

  located : ℕ → Option (ℕ × Bytes) → Option (Bytes × Bytes)
  unfolding measured
  located m none = none
  located m (some (dist, r1)) = measured dist (match_length m r1)

  Shorter-trans : (k : ℕ) (r : Option (ℕ × Bytes)) → k ≤ n → Shorter k r → Shorter n r
  Shorter-trans k none h s = tt
  Shorter-trans k (some (a, r)) h s = omega arith

  located-Within : (m : ℕ) (r : Option (ℕ × Bytes)) → Shorter n r → Within n dsize (located m r)
  unfolding located
  located-Within m none h = tt
  located-Within m (some (dist, r1)) h =
      measured-Within dist (match_length m r1)
        (Shorter-trans (length r1) (match_length m r1) h (match_length-Shorter m r1))

  pub take_match-Within :
      (token : ℕ) (rest : Bytes)
      → length rest ≤ n
      → length out ≤ dsize
      → Within n dsize (take_match dsize token rest out)
  unfolding take_match located measured copied
  take_match-Within token rest hr ho = elim (Bool-cases (token % 16 == 0)) [
    | inl no_match ↦ rw no_match (hr, ho)
    | inr matched ↦ rw matched (
        located-Within (token % 16) (read_distance token rest) (
          Shorter-trans (length rest) (read_distance token rest) hr
            (read_distance-Shorter token rest)))
  ]
