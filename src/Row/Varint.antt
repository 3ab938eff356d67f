-- ===== src/Row/Varint.antt =====
-- row/row.go: decoder.uvarint, against binary.AppendUvarint, which the encoder calls. The bytes from
-- d.pos on are the list that is read.
pub mod RoundTrip
use repani.Base.{
  ℕ, zero, suc, ◌+◌, ◌*◌, ◌/◌, ◌%◌, ◌^◌, ◌&&◌, List, [], ◌∷◌, Bytes, ltb, ◌==◌, if◌then◌else◌,
  Result, ok, err,
}

-- The codes of an Error, and the offset of its item.
pub data Code : Type 0 where
  r001 r002 r003 r004 r005 r006 r007 r008 r009 : Code

pub record RowError : Type 0 where
  pub code : Code
  pub offset : ℕ

-- binary.AppendUvarint, less the slice that it appends to. A uint64 takes at most ten bytes.
unfoldable pub put_uvarint : ℕ → ℕ → Bytes
put_uvarint zero v = v % 2 ^ 8 ∷ []
put_uvarint (suc more) v =
    let rest = put_uvarint more (v / 2 ^ 7) in
    if ltb v 0x80 then v % 2 ^ 8 ∷ [] else (v % 2 ^ 7 + 0x80) ∷ rest

unfoldable pub uvarint_bytes : ℕ → Bytes
unfolding put_uvarint
uvarint_bytes v = put_uvarint 9 v

abbrev pub max_varint : ℕ
max_varint = 8

-- The loop of uvarint with `more` rounds left before i is maxVarint.
unfoldable pub uvarint_loop : ℕ → ℕ → ℕ → ℕ → Bytes → Result RowError (ℕ × Bytes)
uvarint_loop zero start i u rest = err (record { code = r002; offset = start })
uvarint_loop (suc more) start i u [] = err (record { code = r001; offset = start })
uvarint_loop (suc more) start i u (c ∷ rest) =
    let u1 = u + c % 2 ^ 7 * 2 ^ (7 * i) in
    let next = uvarint_loop more start (i + 1) u1 rest in
    if ltb c 0x80
    then (if c == 0 && ltb 0 i then err (record { code = r002; offset = start }) else ok (u1, rest))
    else next

-- uvarint: the number, and the bytes behind it.
unfoldable pub uvarint : ℕ → Bytes → Result RowError (ℕ × Bytes)
unfolding uvarint_loop
uvarint start rest = uvarint_loop max_varint start 0 0 rest
