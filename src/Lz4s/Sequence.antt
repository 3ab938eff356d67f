-- ===== src/Lz4s/Sequence.antt =====
-- The decoder on one sequence that emit wrote.
use repani.Base.{
  ℕ, zero, suc, ◌+◌, ◌-◌, ◌*◌, ◌/◌, ◌%◌, ◌^◌, ◌≡◌, ◌≤◌, ◌<◌, inl, inr, refl, ap, ◌∙◌, true, false,
  [], ◌∷◌, ◌++◌, append_assoc, append-nil, length, take-append, drop-append, length-append, Bytes,
  get_le, ltb, leb, ◌==◌, if◌then◌else◌, Bool-cases, some, arith,
}
use repani.Lz4s.Decoder.{
  read_ext, literal_length, take_literals, read_distance, match_length, copy_match, apply_match,
  take_match, sequence,
}
use repani.Lz4s.Encoder.{ext_run, token_of, literal_bytes, match_bytes}

read_ext-ext_run :
    (fuel v l : ℕ) (rest : Bytes)
    → v ≤ fuel
    → read_ext (ext_run fuel v ++ rest) l ≡ some (l + v, rest)
unfolding read_ext ext_run
read_ext-ext_run zero v l rest h = ground arith
read_ext-ext_run (suc fuel) v l rest h = elim (Bool-cases (leb 255 v)) [
  | inl long ↦ rw long (
      read_ext-ext_run fuel (v - 255) (l + 255) rest (omega arith)
      ∙ ap (λ n. some (n, rest)) (ground arith))
  | inr short ↦ rw short (ground arith)
]

-- The three fields of a token.
record HasFields (token l m w : ℕ) : Type 0 where
  literals : token / 2 ^ 4 % 8 ≡ l
  matched : token % 16 ≡ m
  wide : token / 2 ^ 7 % 2 ≡ w

fields :
    (l m w token : ℕ)
    → l < 8
    → m < 16
    → w < 2
    → token ≡ l * 2 ^ 4 + m + w * 128
    → HasFields token l m w
fields l m w token hl hm hw e = record {
  literals = omega arith;
  matched = omega arith;
  wide = omega arith;
}

literal_length-literal_bytes :
    (token w m : ℕ) (lits rest : Bytes)
    → HasFields token (if leb 7 (length lits) then 7 else length lits) m w
    → literal_length token (literal_bytes lits ++ rest) ≡ some (length lits, lits ++ rest)
unfolding literal_length literal_bytes
literal_length-literal_bytes token w m lits rest f = elim (Bool-cases (leb 7 (length lits))) [
  | inl long ↦
      let l7 : token / 2 ^ 4 % 8 ≡ 7 = f.literals ∙ (rw long refl) in
      rw (long, l7, append_assoc (ext_run (length lits - 7) (length lits - 7)) lits rest)
        (read_ext-ext_run (length lits - 7) (length lits - 7) 7 (lits ++ rest) (omega arith)
          ∙ ap (λ n. some (n, lits ++ rest)) (ground arith))
  | inr short ↦
      let l : token / 2 ^ 4 % 8 ≡ length lits = f.literals ∙ (rw short refl) in
      rw (short, l) (ground arith)
]

take_literals-append :
    (dsize : ℕ) (lits rest out : Bytes)
    → length out + length lits ≤ dsize
    → take_literals dsize (length lits) (lits ++ rest) out ≡ some (rest, out ++ lits)
unfolding take_literals
take_literals-append dsize [] rest out h = rw (append-nil out) refl
take_literals-append dsize (x ∷ xs) rest out h =
    rw
      (
        take-append (suc (length xs)) (x ∷ xs) rest refl,
        drop-append (suc (length xs)) (x ∷ xs) rest refl,
      )
      (ground (arith, length-append xs rest))

-- The offset and extension of a match, as match_bytes lays them out.
abbrev offset_bytes : ℕ → Bytes
offset_bytes dist =
    if ltb 256 dist
    then (dist - 1) % 2 ^ 8 ∷ (dist - 1) / 2 ^ 8 % 2 ^ 8 ∷ []
    else (dist - 1) % 2 ^ 8 ∷ []

abbrev wide_bit : ℕ → ℕ
wide_bit dist = if ltb 256 dist then 1 else 0

abbrev match_field : ℕ → ℕ
match_field len = if leb 15 (len - 2) then 15 else len - 2

abbrev match_ext : ℕ → Bytes
match_ext len = if leb 15 (len - 2) then ext_run (len - 17) (len - 17) else []

read_distance-offset_bytes :
    (token dist : ℕ) (rest : Bytes)
    → token / 2 ^ 7 % 2 ≡ wide_bit dist
    → 1 ≤ dist
    → dist ≤ 65536
    → read_distance token (offset_bytes dist ++ rest) ≡ some (dist, rest)
unfolding read_distance get_le
read_distance-offset_bytes token dist rest w lo hi = elim (Bool-cases (ltb 256 dist)) [
  | inl far ↦ let w1 : token / 2 ^ 7 % 2 ≡ 1 = w ∙ (rw far refl) in rw (far, w1) (ground arith)
  | inr near ↦ let w0 : token / 2 ^ 7 % 2 ≡ 0 = w ∙ (rw near refl) in rw (near, w0) (ground arith)
]

match_length-match_ext :
    (len : ℕ) (rest : Bytes)
    → 3 ≤ len
    → match_length (match_field len) (match_ext len ++ rest) ≡ some (len, rest)
unfolding match_length
match_length-match_ext len rest h = elim (Bool-cases (leb 15 (len - 2))) [
  | inl long ↦ rw long (
      read_ext-ext_run (len - 17) (len - 17) 17 rest (omega arith)
      ∙ ap (λ n. some (n, rest)) (ground arith))
  | inr short ↦ rw short (ground arith)
]

-- A match of `len` bytes at distance `dist` that the encoder may write.
pub record CanCopy (dsize len dist : ℕ) (out : Bytes) : Type 0 where
  pub long : 3 ≤ len
  pub back : 1 ≤ dist
  pub near : dist ≤ 65536
  pub held : dist ≤ length out
  pub fits : length out + len ≤ dsize

take_match-match_bytes :
    (dsize token l len dist : ℕ) (rest out : Bytes)
    → HasFields token l (match_field len) (wide_bit dist)
    → CanCopy dsize len dist out
    → take_match dsize token (match_bytes len dist ++ rest) out
      ≡ some (rest, copy_match len dist out)
unfolding take_match apply_match match_bytes
take_match-match_bytes dsize token l len dist rest out f c =
    let nonzero : (token % 16 == 0) ≡ false = ground (arith, f.matched, c.long) in
    let some_match : ltb 0 len ≡ true = ground (arith, c.long) in
    let behind : ltb (length out) dist ≡ false = ground (arith, c.held) in
    let within : ltb dsize (length out + len) ≡ false = ground (arith, c.fits) in
    rw
      (
        nonzero,
        some_match,
        append_assoc (offset_bytes dist) (match_ext len) rest,
        read_distance-offset_bytes token dist (match_ext len ++ rest) f.wide c.back c.near,
        f.matched,
        match_length-match_ext len rest c.long,
        behind,
        within,
      )
      refl

below_eight : (l : ℕ) → (if leb 7 l then 7 else l) < 8
below_eight l = ground arith

token_of-match :
    (l len dist : ℕ)
    → 3 ≤ len
    → HasFields (token_of l len dist) (if leb 7 l then 7 else l) (match_field len) (wide_bit dist)
unfolding token_of
token_of-match l len dist h =
    fields (if leb 7 l then 7 else l) (match_field len) (wide_bit dist) _ (below_eight l)
      (ground arith) (ground arith)
      (elim (Bool-cases (ltb 256 dist)) [
        | inl far ↦ rw (far, let e : ltb 0 len ≡ true = ground arith in e) (omega arith)
        | inr near ↦ rw (near, let e : ltb 0 len ≡ true = ground arith in e) (omega arith)
      ])

token_of-literals : (l : ℕ) → HasFields (token_of l 0 0) (if leb 7 l then 7 else l) 0 0
unfolding token_of
token_of-literals l =
    fields (if leb 7 l then 7 else l) 0 0 _ (below_eight l) (omega arith) (omega arith)
      (omega arith)

-- The decoder on a sequence with a match.
pub sequence-match :
    (dsize len dist : ℕ) (lits rest out : Bytes)
    → CanCopy dsize len dist (out ++ lits)
    → sequence dsize
        (token_of (length lits) len dist)
        ((literal_bytes lits ++ match_bytes len dist) ++ rest)
        out
      ≡ some (rest, copy_match len dist (out ++ lits))
unfolding sequence
sequence-match dsize len dist lits rest out c =
    let f = token_of-match (length lits) len dist c.long in
    rw
      (
        append_assoc (literal_bytes lits) (match_bytes len dist) rest,
        sequence,
        literal_length-literal_bytes _ _ _ lits (match_bytes len dist ++ rest) f,
        take_literals-append dsize lits (match_bytes len dist ++ rest) out
            (omega (arith, c.fits, length-append out lits)),
      )
      (take_match-match_bytes dsize _ _ len dist rest (out ++ lits) f c)

-- The decoder on the literals that end a stream.
pub sequence-literals :
    (dsize : ℕ) (lits rest out : Bytes)
    → length out + length lits ≤ dsize
    → sequence dsize
        (token_of (length lits) 0 0)
        ((literal_bytes lits ++ match_bytes 0 0) ++ rest)
        out
      ≡ some (rest, out ++ lits)
unfolding sequence match_bytes take_match
sequence-literals dsize lits rest out h =
    let f = token_of-literals (length lits) in
    rw
      (
        append-nil (literal_bytes lits),
        sequence,
        literal_length-literal_bytes _ _ _ lits rest f,
        take_literals-append dsize lits rest out h,
        take_match,
        f.matched,
      )
      refl
