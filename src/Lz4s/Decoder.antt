-- ===== src/Lz4s/Decoder.antt =====
-- lz4s/lz4s.go: Undelta and Decompress. The offset `i` into the stream is the list of the bytes from
-- it on, and the output is the list so far, with the base in front.
use repani.Base.{
  ℕ, zero, suc, ◌+◌, ◌-◌, ◌/◌, ◌%◌, ◌^◌, ◌||◌, [], ◌∷◌, ◌++◌, length, take, drop, get_or, Bytes,
  get_le, ltb, ◌==◌, not, if◌then◌else◌, Option, none, some,
}

-- The 255-run extension of a length `l`: the length, and the stream behind it.
unfoldable pub read_ext : Bytes → ℕ → Option (ℕ × Bytes)
read_ext [] l = none
read_ext (b ∷ rest) l =
    let longer = read_ext rest (l + b) in if not (b == 255) then some (l + b, rest) else longer

-- L, bits 6 to 4 of the token, with its extension.
unfoldable pub literal_length : ℕ → Bytes → Option (ℕ × Bytes)
unfolding read_ext
literal_length token rest =
    let l = token / 2 ^ 4 % 8 in if l == 7 then read_ext rest 7 else some (l, rest)

-- The literals: the stream behind them, and the output with them.
unfoldable pub take_literals : ℕ → ℕ → Bytes → Bytes → Option (Bytes × Bytes)
take_literals dsize l rest out =
    if ltb 0 l
    then (if ltb (length rest) l || ltb dsize (length out + l)
        then none
        else some (drop l rest, out ++ take l rest))
    else some (rest, out)

-- The distance, in two bytes where W is set.
unfoldable pub read_distance : ℕ → Bytes → Option (ℕ × Bytes)
read_distance token rest =
    if token / 2 ^ 7 % 2 == 1
    then (if ltb (length rest) 2 then none else some (get_le (take 2 rest) + 1, drop 2 rest))
    else if ltb (length rest) 1
    then none
    else some (get_or rest 0 0 + 1, drop 1 rest)

unfoldable pub match_length : ℕ → Bytes → Option (ℕ × Bytes)
unfolding read_ext
match_length m rest = if m == 15 then read_ext rest 17 else some (m + 2, rest)

-- The byte-serial forward copy.
unfoldable pub copy_match : ℕ → ℕ → Bytes → Bytes
copy_match zero dist out = out
copy_match (suc n) dist out = copy_match n dist (out ++ get_or out (length out - dist) 0 ∷ [])

unfoldable pub apply_match : ℕ → ℕ → ℕ → Bytes → Option Bytes
unfolding copy_match
apply_match dsize dist len out =
    if ltb (length out) dist || ltb dsize (length out + len)
    then none
    else some (copy_match len dist out)

-- The back-reference of a token, if it has one.
unfoldable pub take_match : ℕ → ℕ → Bytes → Bytes → Option (Bytes × Bytes)
unfolding read_distance match_length apply_match
take_match dsize token rest out =
    let m = token % 16 in
    if m == 0 then some (rest, out) else elim (read_distance token rest) [
      | none ↦ none
      | some (dist, r1) ↦ elim (match_length m r1) [
        | none ↦ none
        | some (len, r2) ↦ elim (apply_match dsize dist len out) [
          | none ↦ none
          | some longer ↦ some (r2, longer)
        ]
      ]
    ]

-- One sequence: the rest of the stream, and the output.
unfoldable pub sequence : ℕ → ℕ → Bytes → Bytes → Option (Bytes × Bytes)
unfolding literal_length take_literals take_match
sequence dsize token rest out = elim (literal_length token rest) [
  | none ↦ none
  | some (l, r1) ↦ elim (take_literals dsize l r1 out) [
    | none ↦ none
    | some (r2, longer) ↦ take_match dsize token r2 longer
  ]
]

-- The loop of Undelta. Each round takes at least its token, so the stream's length is fuel enough.
unfoldable pub undelta_loop : ℕ → ℕ → Bytes → Bytes → Option Bytes
unfolding sequence
undelta_loop fuel dsize [] out = some out
undelta_loop zero dsize (token ∷ rest) out = none
undelta_loop (suc fuel) dsize (token ∷ rest) out = elim (sequence dsize token rest out) [
  | none ↦ none
  | some (r, longer) ↦ undelta_loop fuel dsize r longer
]

-- Undelta, for a size that is not negative.
unfoldable pub undelta : Bytes → Bytes → ℕ → Option Bytes
unfolding undelta_loop
undelta base comp dsize = elim (undelta_loop (length comp) (dsize + length base) comp base) [
  | none ↦ none
  | some out ↦
      if not (length out == dsize + length base) then none else some (drop (length base) out)
]

-- Decompress
unfoldable pub decompress : Bytes → ℕ → Option Bytes
unfolding undelta
decompress comp dsize = undelta [] comp dsize
