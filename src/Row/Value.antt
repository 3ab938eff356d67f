-- ===== src/Row/Value.antt =====
-- row/row.go: the items of a row, which have passed every rule. A float is its 64 bits; a list's items
-- are no lists, as fromGo and Decode see to. utf8.Valid is the standard library's, by the table of
-- well-formed byte sequences.
use repani.Base.{
  ℕ, zero, suc, ◌-◌, ◌/◌, ◌%◌, ◌^◌, ◌≤◌, ◌<◌, ◌≡◌, ◌&&◌, Bool, true, false, not, List, [], ◌∷◌,
  length, drop, All, Bytes, ltb, leb, ◌==◌, if◌then◌else◌,
}
use repani.Row.Int.{ℤ, pos, negsuc}
use repani.Row.Zigzag.{InRange}

pub data Item : Type 0 where
  k_string : Bytes → Item
  k_none k_false k_true : Item
  k_int : ℤ → Item
  k_decimal : ℤ → ℕ → Item
  k_float : ℕ → Item
  k_date : ℤ → Item
  k_datetime : ℤ → Item
  k_time : ℕ → Item
  k_duration : ℤ → Item
  k_bytes : Bytes → Item

pub data Val : Type 0 where
  k_item : Item → Val
  k_list : List Item → Val

between : ℕ → ℕ → ℕ → Bool
between lo hi b = leb lo b && leb b hi

continues : Bytes → Bool
unfolding between
continues [] = false
continues (b ∷ bs) = between 0x80 0xbf b

-- The length of the rune in front, or 0 where there is none.
rune_size : Bytes → ℕ
unfolding between continues
rune_size [] = 0
rune_size (a ∷ []) = if ltb a 0x80 then 1 else 0
rune_size (a ∷ b ∷ s) =
    if ltb a 0x80
    then 1
    else if between 0xc2 0xdf a
    then (if between 0x80 0xbf b then 2 else 0)
    else if between 0xe0 0xef a
    then (if between (if a == 0xe0 then 0xa0 else 0x80) (if a == 0xed then 0x9f else 0xbf) b
          && continues s
        then 3
        else 0)
    else if between 0xf0 0xf4 a
    then (if between (if a == 0xf0 then 0x90 else 0x80) (if a == 0xf4 then 0x8f else 0xbf) b
          && (continues s && continues (drop 1 s))
        then 4
        else 0)
    else 0

-- A rune takes at least a byte, so the length is fuel enough.
valid_loop : ℕ → Bytes → Bool
unfolding rune_size
valid_loop zero s = length s == 0
valid_loop (suc fuel) s =
    let rest = valid_loop fuel (drop (rune_size s) s) in
    if length s == 0 then true else if rune_size s == 0 then false else rest

unfoldable pub utf8_valid : Bytes → Bool
unfolding valid_loop
utf8_valid s = valid_loop (length s) s

-- checkFloat on the bits: neither NaN nor infinite, and not -0.
unfoldable pub float_ok : ℕ → Bool
float_ok bits = not (bits / 2 ^ 52 % 2 ^ 11 == 2 ^ 11 - 1) && not (bits == 2 ^ 63)

-- min_day to max_day, and min_datetime to max_datetime
unfoldable pub day_ok : ℤ → Bool
day_ok (pos n) = leb n 2932896
day_ok (negsuc n) = leb (suc n) 719162

unfoldable pub datetime_ok : ℤ → Bool
datetime_ok (pos n) = leb n 253402300799999
datetime_ok (negsuc n) = leb (suc n) 62135596800000

abbrev pub max_time : ℕ
max_time = 86399999

abbrev pub max_scale : ℕ
max_scale = 15

-- The rules of section 2.2 that fromGo checks, and that a byte slice fits in memory.
abbrev pub IsItem : Item → Type 0
IsItem (k_string s) = (utf8_valid s ≡ true) × (length s < 2 ^ 53)
IsItem k_none = Unit
IsItem k_false = Unit
IsItem k_true = Unit
IsItem (k_int n) = InRange n
IsItem (k_decimal n scale) = InRange n × (scale ≤ max_scale)
IsItem (k_float bits) = (float_ok bits ≡ true) × (bits < 2 ^ 64)
IsItem (k_date n) = InRange n × (day_ok n ≡ true)
IsItem (k_datetime n) = InRange n × (datetime_ok n ≡ true)
IsItem (k_time n) = n ≤ max_time
IsItem (k_duration n) = InRange n
IsItem (k_bytes b) = length b < 2 ^ 53

abbrev pub IsVal : Val → Type 0
IsVal (k_item i) = IsItem i
IsVal (k_list is) = All IsItem is × (length is < 2 ^ 53)
