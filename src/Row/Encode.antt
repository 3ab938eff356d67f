-- ===== src/Row/Encode.antt =====
-- row/row.go: val.append and Encode, on values that have passed fromGo.
use repani.Base.{ℕ, ◌+◌, List, [], ◌∷◌, ◌++◌, length, Bool, Bytes, put_le, ltb, leb, if◌then◌else◌}
use repani.Lz4s.Encoder.{compress}
use repani.Row.Varint.{uvarint_bytes}
use repani.Row.Zigzag.{signed_bytes}
use repani.Row.Value.{
  Item, Val, k_string, k_none, k_false, k_true, k_int, k_decimal, k_float, k_date, k_datetime,
  k_time, k_duration, k_bytes, k_item, k_list,
}

abbrev pub max_short : ℕ
max_short = 241

-- smaller
unfoldable pub smaller : ℕ → ℕ → Bool
smaller c n = ltb (length (uvarint_bytes c) + c) n

-- The tags stand as numbers, from tagCompressed 242 to tagList 255.
unfoldable pub string_bytes : Bytes → Bytes
unfolding smaller
string_bytes s =
    if leb (length s) max_short
    then length s ∷ s
    else let c = compress s in
      if smaller (length c) (length s)
      then 242 ∷ (uvarint_bytes (length s) ++ (uvarint_bytes (length c) ++ c))
      else 254 ∷ (uvarint_bytes (length s) ++ s)

-- val.append for an item that is no list.
unfoldable pub item_bytes : Item → Bytes
unfolding string_bytes
item_bytes (k_string s) = string_bytes s
item_bytes k_none = 243 ∷ []
item_bytes k_false = 244 ∷ []
item_bytes k_true = 245 ∷ []
item_bytes (k_int n) = 246 ∷ signed_bytes n
item_bytes (k_decimal n scale) = 247 ∷ scale ∷ signed_bytes n
item_bytes (k_float bits) = 248 ∷ put_le 8 bits
item_bytes (k_date n) = 249 ∷ signed_bytes n
item_bytes (k_datetime n) = 250 ∷ signed_bytes n
item_bytes (k_time n) = 251 ∷ uvarint_bytes n
item_bytes (k_duration n) = 252 ∷ signed_bytes n
item_bytes (k_bytes b) = 253 ∷ (uvarint_bytes (length b) ++ b)

unfoldable pub items_bytes : List Item → Bytes
unfolding item_bytes
items_bytes [] = []
items_bytes (i ∷ is) = item_bytes i ++ items_bytes is

-- val.append
unfoldable pub val_bytes : Val → Bytes
unfolding items_bytes
val_bytes (k_item i) = item_bytes i
val_bytes (k_list is) = 255 ∷ (uvarint_bytes (length is) ++ items_bytes is)

-- Encode, once its items are values.
unfoldable pub encode : List Val → Bytes
unfolding val_bytes
encode [] = []
encode (v ∷ vs) = val_bytes v ++ encode vs
