-- ===== src/Row/Zigzag.antt =====
-- row/row.go: zigzag, unzigzag and decoder.signed.
pub mod RoundTrip
use repani.Base.{
  ℕ, suc, ◌+◌, ◌-◌, ◌*◌, ◌/◌, ◌%◌, ◌^◌, ◌≤◌, Bool, true, false, Bytes, ltb, ◌==◌, if◌then◌else◌,
  Result, ok, err,
}
use repani.Row.Int.{ℤ, pos, negsuc, uint64}
use repani.Row.Varint.{RowError, r003, uvarint, uvarint_bytes}

-- maxInt
abbrev pub max_int : ℕ
max_int = 2 ^ 53 - 1

-- n >> 63 is all ones for a negative number.
unfoldable pub sign_bits : ℤ → ℕ
sign_bits (pos n) = 0
sign_bits (negsuc n) = 2 ^ 64 - 1

-- The exclusive or of a uint64 with no bits or with all.
unfoldable pub xor_all : ℕ → ℕ → ℕ
xor_all u mask = if mask == 0 then u else 2 ^ 64 - 1 - u

unfoldable pub zigzag : ℤ → ℕ
unfolding uint64 sign_bits xor_all
zigzag n = xor_all (uint64 n * 2 % 2 ^ 64) (sign_bits n)

-- Exclusive or with -1 of a number that is not negative is its negative less one.
unfoldable pub unzigzag : ℕ → ℤ
unzigzag u = if u % 2 == 1 then negsuc (u / 2) else pos (u / 2)

-- The varint of a signed number, as val.append writes it.
unfoldable pub signed_bytes : ℤ → Bytes
unfolding zigzag
signed_bytes n = uvarint_bytes (zigzag n)

unfoldable pub in_range_number : ℕ → ℕ → Bytes → Result RowError (ℤ × Bytes)
in_range_number start u rest =
    if ltb (2 * max_int) u
    then err (record { code = r003; offset = start })
    else ok (unzigzag u, rest)

-- signed
unfoldable pub signed : ℕ → Bytes → Result RowError (ℤ × Bytes)
unfolding in_range_number
signed start b = elim (uvarint start b) [
  | err e ↦ err e
  | ok (u, rest) ↦ in_range_number start u rest
]

-- inRange, the absolute value at most maxInt
abbrev pub InRange : ℤ → Type 0
InRange (pos n) = n ≤ max_int
InRange (negsuc n) = suc n ≤ max_int
