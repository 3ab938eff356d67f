-- ===== src/Lz4s/Expansion.antt =====
-- How far a stream of Delta may expand: 255 bytes for each of its own.
use repani.Base.{
  ℕ, zero, suc, ◌+◌, ◌-◌, ◌*◌, ◌/◌, ◌%◌, ◌^◌, ◌≤◌, ◌<◌, inl, inr, [], ◌∷◌, ◌++◌, length,
  length-append, get_or, Bytes, ltb, leb, if◌then◌else◌, Bool-cases, arith, tests,
}
use repani.Lz4s.RoundTrip.{start_state, delta_loop-ends}
use repani.Lz4s.Encoder.{
  ext_run, literal_bytes, match_bytes, token_of, emit, State, Best, advance, find_match, delta_loop,
  delta,
}

ext_run-covers : (f v : ℕ) → v ≤ f → v < 255 * length (ext_run f v)
unfolding ext_run
ext_run-covers zero v h = omega arith
ext_run-covers (suc f) v h = elim (Bool-cases (leb 255 v)) [
  | inl long ↦ rw long (ground (arith, ext_run-covers f (v - 255)))
  | inr short ↦ rw short (ground arith)
]

literal_bytes-long : (lits : Bytes) → length lits ≤ length (literal_bytes lits)
unfolding literal_bytes
literal_bytes-long lits =
    let ext = if leb 7 (length lits) then ext_run (length lits - 7) (length lits - 7) else [] in
    omega (arith, length-append ext lits)

match_bytes-covers : (len dist : ℕ) → len ≤ 17 + 255 * length (match_bytes len dist)
unfolding match_bytes
match_bytes-covers len dist = elim (Bool-cases (ltb 0 len)) [
  | inr none_there ↦ rw none_there (ground arith)
  | inl there ↦ elim (Bool-cases (leb 15 (len - 2))) [
    | inl long ↦
        let offset =
          if ltb 256 dist
          then (dist - 1) % 2 ^ 8 ∷ (dist - 1) / 2 ^ 8 % 2 ^ 8 ∷ []
          else (dist - 1) % 2 ^ 8 ∷ [] in
        rw (there, long)
          (omega (
            arith,
            length-append offset (ext_run (len - 17) (len - 17)),
            ext_run-covers (len - 17) (len - 17) (omega arith),
          ))
    | inr short ↦ rw (there, short) (ground arith)
  ]
]

emit-covers :
    (out lits : Bytes) (len dist : ℕ)
    → length lits + len + 255 * length out ≤ 255 * length (emit out lits len dist)
unfolding emit
emit-covers out lits len dist =
    let body = literal_bytes lits ++ match_bytes len dist in
    omega (
      arith,
      length-append out (token_of (length lits) len dist ∷ body),
      length-append (literal_bytes lits) (match_bytes len dist),
      literal_bytes-long lits,
      match_bytes-covers len dist,
    )

-- What is behind `pos` is pending or covered by the stream.
abbrev IsCovered : ℕ → State → Type 0
IsCovered start s = s.pos ≤ start + (length s.lits + 255 * length s.out)

advance-IsCovered :
    (start : ℕ) (src : Bytes) (s : State) (b : Best)
    → IsCovered start s
    → IsCovered start (advance src s b)
unfolding advance
advance-IsCovered start src s b c = elim (Bool-cases (ltb 0 b.gain)) [
  | inl gained ↦ rw gained (omega (arith, emit-covers s.out s.lits b.len b.dist))
  | inr literal ↦ rw literal (omega (arith, length-append s.lits (get_or src s.pos 0 ∷ [])))
]

delta_loop-IsCovered :
    (fuel start : ℕ) (src : Bytes) (s : State)
    → IsCovered start s
    → IsCovered start (delta_loop fuel src s)
unfolding delta_loop
delta_loop-IsCovered zero start src s c = c
delta_loop-IsCovered (suc fuel) start src s c = elim (Bool-cases (ltb s.pos (length src))) [
  | inr ended ↦ rw ended c
  | inl more ↦ rw more (
      delta_loop-IsCovered fuel start src (advance src s (find_match src s.pos s.table))
        (advance-IsCovered start src s (find_match src s.pos s.table) c))
]

-- A source is at most 255 bytes long for each byte of the stream that Delta makes of it.
pub delta-expands : (base src : Bytes) → length src ≤ 255 * length (delta base src)
unfolding delta
delta-expands base src =
    let s = delta_loop (length src) (base ++ src) (start_state base src) in
    let covered =
      delta_loop-IsCovered (length src) (length base) (base ++ src) (start_state base src)
        (omega arith) in
    let ended = delta_loop-ends base src in
    elim (Bool-cases (ltb 0 (length s.lits))) [
      | inl pending ↦
          rw pending
            (omega (arith, length-append base src, covered, ended, emit-covers s.out s.lits 0 0))
      | inr none_left ↦ rw none_left (omega (tests, length-append base src, covered, ended))
    ]
