-- ===== src/Row/Decode.antt =====
-- row/row.go: the decoder. `b` is what is left of the row from d.pos on, and `start` the offset of the
-- item, for its errors.
use repani.Base.{
  ℕ, zero, suc, ◌-◌, ◌*◌, List, [], ◌∷◌, ◌++◌, length, take, drop, not, Bytes, get_le, ltb, leb,
  ◌==◌, is_eq, compare_bytes, if◌then◌else◌, Option, none, some, Result, ok, err, ◌>>=◌,
}
use repani.Lz4s.Decoder.{decompress}
use repani.Lz4s.Encoder.{compress}
use repani.Row.Varint.{RowError, Code, r001, r003, r004, r005, r006, r007, r008, r009, uvarint}
use repani.Row.Zigzag.{max_int, signed}
use repani.Row.Value.{
  Item, Val, k_string, k_none, k_false, k_true, k_int, k_decimal, k_float, k_date, k_datetime,
  k_time, k_duration, k_bytes, k_item, k_list, utf8_valid, float_ok, day_ok, datetime_ok, max_time,
  max_scale,
}
use repani.Row.Encode.{max_short, smaller}

-- errf, less its message
unfoldable pub fail {ℓ} : {A : Type ℓ} → Code → ℕ → Result RowError A
fail code start = err (record { code = code; offset = start })

-- The checks of length on the number that it read.
unfoldable pub length_within : ℕ → ℕ → Bytes → Result RowError (ℕ × Bytes)
unfolding fail
length_within start u b =
    if ltb max_int u
    then fail r003 start
    else if ltb (length b) u
    then fail r001 start
    else ok (u, b)

-- length
unfoldable pub read_length : ℕ → Bytes → Result RowError (ℕ × Bytes)
unfolding length_within
read_length start b = uvarint start b >>= λ (u, rest). length_within start u rest

-- str, for a length that fits what is left.
unfoldable pub str : ℕ → ℕ → Bytes → Result RowError (Item × Bytes)
unfolding fail
str start n b =
    if not (utf8_valid (take n b)) then fail r006 start else ok (k_string (take n b), drop n b)

-- A long string's checks, once it is read.
unfoldable pub long_string : ℕ → ℕ → Bytes → Result RowError (Item × Bytes)
unfolding str
long_string start n b =
    if leb n max_short
    then fail r007 start
    else str start n b >>= λ r.
        if smaller (length (compress (take n b))) n then fail r007 start else ok r

-- The checks of a decompressed text, after the stream of `c` bytes.
unfoldable pub decompressed :
    ℕ → ℕ → ℕ → Bytes → Bytes → Option Bytes → Result RowError (Item × Bytes)
unfolding fail
decompressed start u c stream rest none = fail r009 start
decompressed start u c stream rest (some text) =
    if not (utf8_valid text)
    then fail r006 start
    else if not (is_eq (compare_bytes (compress text) stream))
    then fail r009 start
    else if not (smaller c u)
    then fail r007 start
    else ok (k_string text, rest)

-- A compressed string of `u` bytes, whose stream has `c` bytes.
unfoldable pub stream_string : ℕ → ℕ → ℕ → Bytes → Result RowError (Item × Bytes)
unfolding decompressed
stream_string start u c b =
    if leb u max_short
    then fail r007 start
    else if ltb (255 * c) u
    then fail r009 start
    else decompressed start u c (take c b) (drop c b) (decompress (take c b) u)

unfoldable pub compressed_string : ℕ → ℕ → Bytes → Result RowError (Item × Bytes)
unfolding read_length stream_string
compressed_string start u b =
    if ltb max_int u
    then fail r003 start
    else read_length start b >>= λ (c, rest). stream_string start u c rest

unfoldable pub decimal : ℕ → Bytes → Result RowError (Item × Bytes)
unfolding fail
decimal start [] = fail r001 start
decimal start (scale ∷ b) =
    if ltb max_scale scale
    then fail r004 start
    else signed start b >>= λ (n, rest). ok (k_decimal n scale, rest)

unfoldable pub float : ℕ → Bytes → Result RowError (Item × Bytes)
unfolding fail
float start b =
    if ltb (length b) 8
    then fail r001 start
    else if not (float_ok (get_le (take 8 b)))
    then fail r005 start
    else ok (k_float (get_le (take 8 b)), drop 8 b)

-- The item of a tag that is no list's.
unfoldable pub tagged : ℕ → ℕ → Bytes → Result RowError (Item × Bytes)
unfolding str read_length long_string compressed_string decimal float
tagged start tag b =
    if leb tag max_short
    then (if ltb (length b) tag then fail r001 start else str start tag b)
    else if tag == 243
    then ok (k_none, b)
    else if tag == 244
    then ok (k_false, b)
    else if tag == 245
    then ok (k_true, b)
    else if tag == 246
    then signed start b >>= (λ (n, rest). ok (k_int n, rest))
    else if tag == 247
    then decimal start b
    else if tag == 248
    then float start b
    else if tag == 249
    then signed start b
      >>= (λ (n, rest). if not (day_ok n) then fail r003 start else ok (k_date n, rest))
    else if tag == 250
    then signed start b
      >>= (λ (n, rest). if not (datetime_ok n) then fail r003 start else ok (k_datetime n, rest))
    else if tag == 251
    then uvarint start b
      >>= (λ (u, rest). if ltb max_time u then fail r003 start else ok (k_time u, rest))
    else if tag == 252
    then signed start b >>= (λ (n, rest). ok (k_duration n, rest))
    else if tag == 253
    then read_length start b >>= (λ (n, rest). ok (k_bytes (take n rest), drop n rest))
    else if tag == 254
    then read_length start b >>= (λ (n, rest). long_string start n rest)
    else uvarint start b >>= (λ (u, rest). compressed_string start u rest)

-- The items of a list that began at `start`, `n` of them left; a row has `total` bytes.
unfoldable pub list_loop : ℕ → ℕ → ℕ → Bytes → List Item → Result RowError (List Item × Bytes)
unfolding tagged
list_loop zero total start b out = ok (out, b)
list_loop (suc n) total start [] out = fail r001 start
list_loop (suc n) total start (tag ∷ b) out =
    let here = total - suc (length b) in
    if tag == 255
    then fail r008 here
    else tagged here tag b >>= λ (i, rest). list_loop n total start rest (out ++ i ∷ [])

-- item, outside a list.
unfoldable pub item : ℕ → ℕ → Bytes → Result RowError (Val × Bytes)
unfolding list_loop read_length
item total tag b =
    let start = total - suc (length b) in
    if tag == 255
    then (read_length start b >>= λ (n, rest).
        list_loop n total start rest [] >>= λ (is, behind). ok (k_list is, behind))
    else tagged start tag b >>= λ (i, rest). ok (k_item i, rest)

-- decodeVals from some offset on. Each round takes a tag, so the bytes left are fuel enough.
unfoldable pub decode_loop : ℕ → ℕ → Bytes → List Val → Result RowError (List Val)
unfolding item
decode_loop fuel total [] out = ok out
decode_loop zero total (tag ∷ b) out = ok out
decode_loop (suc fuel) total (tag ∷ b) out =
    item total tag b >>= λ (v, rest). decode_loop fuel total rest (out ++ v ∷ [])

-- decodeVals, and with it Decode
unfoldable pub decode : Bytes → Result RowError (List Val)
unfolding decode_loop
decode b = decode_loop (length b) (length b) b []
