-- ===== src/Lz4s/Encoder.antt =====
-- lz4s/lz4s.go: Delta and Compress. `all` is the base followed by the source.
use repani.Base.{
  ℕ, zero, suc, ◌+◌, ◌-◌, ◌*◌, ◌/◌, ◌%◌, ◌^◌, ◌&&◌, [], ◌∷◌, ◌++◌, length, get_or, Bytes, ltb, leb,
  ◌==◌, not, if◌then◌else◌,
}
use repani.Lz4s.Table.{Table, hash_at, insert, insert_from, new_table}

-- The run of 255s and the last byte for a rest `v`. Each round takes 255 off `v`, so `v` is fuel
-- enough.
unfoldable pub ext_run : ℕ → ℕ → Bytes
ext_run zero v = v % 2 ^ 8 ∷ []
ext_run (suc fuel) v =
    let more = ext_run fuel (v - 255) in if leb 255 v then 255 ∷ more else v % 2 ^ 8 ∷ []

unfoldable pub token_of : ℕ → ℕ → ℕ → ℕ
token_of l match_len dist =
    let m = if leb 15 (match_len - 2) then 15 else match_len - 2 in
    (if leb 7 l then 7 else l) * 2 ^ 4
    + (if ltb 0 match_len then m else 0)
    + (if ltb 0 match_len && ltb 256 dist then 0x80 else 0)

unfoldable pub literal_bytes : Bytes → Bytes
unfolding ext_run
literal_bytes lits =
    (if leb 7 (length lits) then ext_run (length lits - 7) (length lits - 7) else []) ++ lits

unfoldable pub match_bytes : ℕ → ℕ → Bytes
unfolding ext_run
match_bytes match_len dist =
    if ltb 0 match_len
    then (if ltb 256 dist
        then (dist - 1) % 2 ^ 8 ∷ (dist - 1) / 2 ^ 8 % 2 ^ 8 ∷ []
        else (dist - 1) % 2 ^ 8 ∷ [])
      ++ (if leb 15 (match_len - 2) then ext_run (match_len - 17) (match_len - 17) else [])
    else []

-- emit, which also empties the literals.
unfoldable pub emit : Bytes → Bytes → ℕ → ℕ → Bytes
unfolding token_of literal_bytes match_bytes
emit out lits match_len dist =
    out
    ++ (token_of (length lits) match_len dist ∷ literal_bytes lits ++ match_bytes match_len dist)

-- The length of the match at `cand` for the position `pos`, at most `n`.
unfoldable pub common_length : Bytes → ℕ → ℕ → ℕ → ℕ
common_length src cand pos zero = 0
common_length src cand pos (suc n) =
    let more = common_length src (cand + 1) (pos + 1) n in
    if get_or src cand 0 == get_or src pos 0 then suc more else 0

pub record Best : Type 0 where
  pub gain : ℕ
  pub len : ℕ
  pub dist : ℕ

-- What a match costs more than its bytes as literals: its token, its offset and its extension.
unfoldable pub match_cost : ℕ → ℕ → ℕ
match_cost l dist = (if ltb 256 dist then 3 else 2) + (if leb 17 l then 1 + (l - 17) / 255 else 0)

-- The body of the candidate loop. A match of 3 bytes or more costs at most its length, so the
-- subtraction is exact.
unfoldable pub try_candidate : Bytes → ℕ → ℕ → ℕ → Best → Best
unfolding common_length match_cost
try_candidate src pos max_len cand best =
    if not (get_or src (cand + best.len) 0 == get_or src (pos + best.len) 0)
    then best
    else let l = common_length src cand pos max_len in
      if ltb l 3
      then best
      else let gain = l - match_cost l (pos - cand) in
        if ltb best.gain gain then record { gain = gain; len = l; dist = pos - cand } else best

-- The candidate loop, where `c` is one past the candidate. Each slot points below itself, so `c` is
-- fuel enough.
unfoldable pub search_chain : ℕ → Bytes → Table → ℕ → ℕ → ℕ → Best → Best
unfolding try_candidate
search_chain zero src t pos lo c best = best
search_chain (suc fuel) src t pos lo c best =
    let max_len = length src - pos in
    let next =
      search_chain fuel src t pos lo (get_or t.prev (c - 1) 0)
        (try_candidate src pos max_len (c - 1) best) in
    if ltb lo c && ltb best.len max_len then next else best

unfoldable pub find_match : Bytes → ℕ → Table → Best
unfolding search_chain
find_match src pos t =
    let first = if leb 3 (length src - pos) then get_or t.head (hash_at src pos) 0 else 0 in
    search_chain first src t pos (pos - 65536) first (record { gain = 0; len = 0; dist = 0 })

pub record State : Type 0 where
  pub out : Bytes
  pub lits : Bytes
  pub pos : ℕ
  pub table : Table

-- What the loop of Delta does once the best match is found.
unfoldable pub advance : Bytes → State → Best → State
unfolding emit
advance src s best =
    if ltb 0 best.gain
    then record {
      out = emit s.out s.lits best.len best.dist;
      lits = [];
      pos = s.pos + best.len;
      table = insert_from src s.pos best.len s.table;
    }
    else record {
      out = s.out;
      lits = s.lits ++ get_or src s.pos 0 ∷ [];
      pos = s.pos + 1;
      table = insert src s.pos s.table;
    }

-- The loop of Delta. Each round moves on by at least one byte, so as many rounds as bytes are enough.
unfoldable pub delta_loop : ℕ → Bytes → State → State
unfolding advance find_match
delta_loop zero src s = s
delta_loop (suc fuel) src s =
    let next = delta_loop fuel src (advance src s (find_match src s.pos s.table)) in
    if ltb s.pos (length src) then next else s

-- Delta
unfoldable pub delta : Bytes → Bytes → Bytes
unfolding delta_loop
delta base src =
    let all = base ++ src in
    let start = length base in
    let s = delta_loop (length src) all (record {
      out = [];
      lits = [];
      pos = start;
      table = insert_from all 0 start (new_table all);
    }) in
    if ltb 0 (length s.lits) then emit s.out s.lits 0 0 else s.out

-- Compress
unfoldable pub compress : Bytes → Bytes
unfolding delta
compress src = delta [] src
