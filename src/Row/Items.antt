-- ===== src/Row/Items.antt =====
-- The bytes of an item, read back by the decoder.
use repani.Base.{
  ℕ, ◌^◌, ◌≡◌, ◌≤◌, ◌<◌, refl, true, false, [], ◌∷◌, ◌++◌, append_assoc, length, take-append,
  drop-append, length-append, Bytes, put_le, length-put_le, get_le-put_le, ltb, ok, arith,
}
use repani.Row.Varint.{uvarint_bytes}
use repani.Row.Varint.RoundTrip.{uvarint-uvarint_bytes}
use repani.Row.Zigzag.{signed_bytes, InRange}
use repani.Row.Zigzag.RoundTrip.{signed-signed_bytes}
use repani.Row.Value.{
  Item, k_string, k_none, k_false, k_true, k_int, k_decimal, k_float, k_date, k_datetime, k_time,
  k_duration, k_bytes, float_ok, max_time, max_scale, IsItem,
}
use repani.Row.Encode.{item_bytes}
use repani.Row.Decode.{decimal, float, tagged}
use repani.Row.Strings.{IsCoded, string_bytes-IsCoded, read_length-uvarint_bytes}

decimal-signed_bytes :
    (start : ℕ) (n : _) (scale : ℕ) (rest : Bytes)
    → InRange n
    → scale ≤ max_scale
    → decimal start (scale ∷ (signed_bytes n ++ rest)) ≡ ok (k_decimal n scale, rest)
unfolding decimal
decimal-signed_bytes start n scale rest h fits =
    let small : ltb max_scale scale ≡ false = ground arith in
    rw (small, signed-signed_bytes start n rest h) refl

float-put_le :
    (start bits : ℕ) (rest : Bytes)
    → float_ok bits ≡ true
    → bits < 2 ^ 64
    → float start (put_le 8 bits ++ rest) ≡ ok (k_float bits, rest)
unfolding float
float-put_le start bits rest h size =
    let eight : length (put_le 8 bits) ≡ 8 = length-put_le 8 bits in
    let room : ltb (length (put_le 8 bits ++ rest)) 8 ≡ false =
      ground (arith, length-append (put_le 8 bits) rest) in
    rw
      (
        room,
        take-append 8 (put_le 8 bits) rest eight,
        drop-append 8 (put_le 8 bits) rest eight,
        get_le-put_le 8 bits (omega arith),
        h,
      )
      refl

-- Every item that keeps the rules is read back from its bytes.
pub item_bytes-IsCoded : (i : Item) (rest : Bytes) → IsItem i → IsCoded i (item_bytes i) rest
unfolding item_bytes tagged
item_bytes-IsCoded (k_string s) rest (v, size) = string_bytes-IsCoded s rest v size
item_bytes-IsCoded k_none rest h = record {
  tag = 243;
  body = [];
  shape = refl;
  no_list = refl;
  reads = λ start. refl;
}
item_bytes-IsCoded k_false rest h = record {
  tag = 244;
  body = [];
  shape = refl;
  no_list = refl;
  reads = λ start. refl;
}
item_bytes-IsCoded k_true rest h = record {
  tag = 245;
  body = [];
  shape = refl;
  no_list = refl;
  reads = λ start. refl;
}
item_bytes-IsCoded (k_int n) rest h = record {
  tag = 246;
  body = signed_bytes n;
  shape = refl;
  no_list = refl;
  reads = λ start. rw (signed-signed_bytes start n rest h) refl;
}
item_bytes-IsCoded (k_decimal n scale) rest (h, fits) = record {
  tag = 247;
  body = scale ∷ signed_bytes n;
  shape = refl;
  no_list = refl;
  reads = λ start. decimal-signed_bytes start n scale rest h fits;
}
item_bytes-IsCoded (k_float bits) rest (h, size) = record {
  tag = 248;
  body = put_le 8 bits;
  shape = refl;
  no_list = refl;
  reads = λ start. float-put_le start bits rest h size;
}
item_bytes-IsCoded (k_date n) rest (h, day) = record {
  tag = 249;
  body = signed_bytes n;
  shape = refl;
  no_list = refl;
  reads = λ start. rw (signed-signed_bytes start n rest h, day) refl;
}
item_bytes-IsCoded (k_datetime n) rest (h, day) = record {
  tag = 250;
  body = signed_bytes n;
  shape = refl;
  no_list = refl;
  reads = λ start. rw (signed-signed_bytes start n rest h, day) refl;
}
item_bytes-IsCoded (k_time n) rest h =
    let small : ltb max_time n ≡ false = ground arith in
    record {
      tag = 251;
      body = uvarint_bytes n;
      shape = refl;
      no_list = refl;
      reads = λ start. rw (uvarint-uvarint_bytes start n rest (omega arith), small) refl;
    }
item_bytes-IsCoded (k_duration n) rest h = record {
  tag = 252;
  body = signed_bytes n;
  shape = refl;
  no_list = refl;
  reads = λ start. rw (signed-signed_bytes start n rest h) refl;
}
item_bytes-IsCoded (k_bytes b) rest h = record {
  tag = 253;
  body = uvarint_bytes (length b) ++ b;
  shape = refl;
  no_list = refl;
  reads = λ start.
      rw
        (
          append_assoc (uvarint_bytes (length b)) b rest,
          read_length-uvarint_bytes start (length b) (b ++ rest) h
              (omega (arith, length-append b rest)),
          take-append (length b) b rest refl,
          drop-append (length b) b rest refl,
        )
        refl;
}
