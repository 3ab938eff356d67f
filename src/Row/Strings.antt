-- ===== src/Row/Strings.antt =====
-- The three forms of a string, read back.
use repani.Base.{
  ℕ, ◌+◌, ◌*◌, ◌^◌, ◌≡◌, ◌≤◌, ◌<◌, inl, inr, refl, true, false, [], ◌∷◌, ◌++◌, append_assoc, length,
  take-append, drop-append, length-append, Bytes, ltb, leb, ◌==◌, compare_bytes_refl, Bool-cases,
  some, ok, arith,
}
use repani.Lz4s.Decoder.{decompress}
use repani.Lz4s.Encoder.{compress}
use repani.Lz4s.RoundTrip.{undelta-delta}
use repani.Lz4s.Expansion.{delta-expands}
use repani.Row.Varint.{uvarint_bytes}
use repani.Row.Varint.RoundTrip.{uvarint-uvarint_bytes}
use repani.Row.Zigzag.{max_int}
use repani.Row.Value.{Item, k_string, utf8_valid}
use repani.Row.Encode.{smaller, string_bytes, max_short}
use repani.Row.Decode.{
  length_within, read_length, str, long_string, decompressed, stream_string, compressed_string,
  tagged,
}

-- A length that fits what follows is read.
pub read_length-uvarint_bytes :
    (start n : ℕ) (rest : Bytes)
    → n < 2 ^ 53
    → n ≤ length rest
    → read_length start (uvarint_bytes n ++ rest) ≡ ok (n, rest)
unfolding read_length length_within
read_length-uvarint_bytes start n rest h fits =
    let small : ltb max_int n ≡ false = ground arith in
    let held : ltb (length rest) n ≡ false = ground arith in
    rw (uvarint-uvarint_bytes start n rest (omega arith), small, held) refl

str-append :
    (start : ℕ) (s rest : Bytes)
    → utf8_valid s ≡ true
    → str start (length s) (s ++ rest) ≡ ok (k_string s, rest)
unfolding str
str-append start s rest v =
    rw (take-append (length s) s rest refl, drop-append (length s) s rest refl, v) refl

decompress-compress : (s : Bytes) → decompress (compress s) (length s) ≡ some s
unfolding decompress compress
decompress-compress s = undelta-delta [] s

compress-expands : (s : Bytes) → length s ≤ 255 * length (compress s)
unfolding compress
compress-expands s = delta-expands [] s

stream_string-compress :
    (start : ℕ) (s rest : Bytes)
    → utf8_valid s ≡ true
    → leb (length s) max_short ≡ false
    → smaller (length (compress s)) (length s) ≡ true
    → stream_string start (length s) (length (compress s)) (compress s ++ rest)
      ≡ ok (k_string s, rest)
unfolding stream_string decompressed
stream_string-compress start s rest v long short =
    let fits : ltb (255 * length (compress s)) (length s) ≡ false =
      ground (arith, compress-expands s) in
    rw
      (
        long,
        fits,
        take-append (length (compress s)) (compress s) rest refl,
        drop-append (length (compress s)) (compress s) rest refl,
        decompress-compress s,
        v,
        compare_bytes_refl (compress s),
        short,
      )
      refl

compressed_string-compress :
    (start : ℕ) (s rest : Bytes)
    → utf8_valid s ≡ true
    → length s < 2 ^ 53
    → leb (length s) max_short ≡ false
    → smaller (length (compress s)) (length s) ≡ true
    → compressed_string start
        (length s)
        (uvarint_bytes (length (compress s)) ++ (compress s ++ rest))
      ≡ ok (k_string s, rest)
unfolding compressed_string smaller
compressed_string-compress start s rest v size long short =
    let small : ltb max_int (length s) ≡ false = ground arith in
    let shorter : length (uvarint_bytes (length (compress s))) + length (compress s) < length s =
      ground arith in
    rw
      (
        small,
        read_length-uvarint_bytes start (length (compress s)) (compress s ++ rest) (omega arith)
            (omega (arith, length-append (compress s) rest)),
      )
      (stream_string-compress start s rest v long short)

long_string-append :
    (start : ℕ) (s rest : Bytes)
    → utf8_valid s ≡ true
    → leb (length s) max_short ≡ false
    → smaller (length (compress s)) (length s) ≡ false
    → long_string start (length s) (s ++ rest) ≡ ok (k_string s, rest)
unfolding long_string
long_string-append start s rest v long larger =
    rw (long, str-append start s rest v, take-append (length s) s rest refl, larger) refl

-- The bytes of an item are a tag, which is not a list's, and a body that is read back to the item.
pub record IsCoded (i : Item) (bytes rest : Bytes) : Type 0 where
  pub tag : ℕ
  pub body : Bytes
  pub shape : bytes ≡ tag ∷ body
  pub no_list : (tag == 255) ≡ false
  pub reads : (start : ℕ) → tagged start tag (body ++ rest) ≡ ok (i, rest)

tagged-short :
    (start : ℕ) (s rest : Bytes)
    → utf8_valid s ≡ true
    → leb (length s) max_short ≡ true
    → tagged start (length s) (s ++ rest) ≡ ok (k_string s, rest)
unfolding tagged
tagged-short start s rest v short =
    let held : ltb (length (s ++ rest)) (length s) ≡ false = ground (arith, length-append s rest) in
    rw (short, held) (str-append start s rest v)

tagged-compressed :
    (start : ℕ) (s rest : Bytes)
    → utf8_valid s ≡ true
    → length s < 2 ^ 53
    → leb (length s) max_short ≡ false
    → smaller (length (compress s)) (length s) ≡ true
    → tagged start 242
        ((uvarint_bytes (length s) ++ (uvarint_bytes (length (compress s)) ++ compress s)) ++ rest)
      ≡ ok (k_string s, rest)
unfolding tagged
tagged-compressed start s rest v size long small =
    rw
      (
        append_assoc (uvarint_bytes (length s)) (uvarint_bytes (length (compress s)) ++ compress s)
            rest,
        append_assoc (uvarint_bytes (length (compress s))) (compress s) rest,
        uvarint-uvarint_bytes start (length s)
            (uvarint_bytes (length (compress s)) ++ (compress s ++ rest)) (omega arith),
      )
      (compressed_string-compress start s rest v size long small)

tagged-long :
    (start : ℕ) (s rest : Bytes)
    → utf8_valid s ≡ true
    → length s < 2 ^ 53
    → leb (length s) max_short ≡ false
    → smaller (length (compress s)) (length s) ≡ false
    → tagged start 254 ((uvarint_bytes (length s) ++ s) ++ rest) ≡ ok (k_string s, rest)
unfolding tagged
tagged-long start s rest v size long large =
    rw
      (
        append_assoc (uvarint_bytes (length s)) s rest,
        read_length-uvarint_bytes start (length s) (s ++ rest) size
            (omega (arith, length-append s rest)),
      )
      (long_string-append start s rest v long large)

-- A string is read back from the form that the encoder chose.
pub string_bytes-IsCoded :
    (s rest : Bytes)
    → utf8_valid s ≡ true
    → length s < 2 ^ 53
    → IsCoded (k_string s) (string_bytes s) rest
unfolding string_bytes
string_bytes-IsCoded s rest v size = elim (Bool-cases (leb (length s) max_short)) [
  | inl short ↦ record {
    tag = length s;
    body = s;
    shape = rw short refl;
    no_list = ground arith;
    reads = λ start. tagged-short start s rest v short;
  }
  | inr long ↦ elim (Bool-cases (smaller (length (compress s)) (length s))) [
    | inl small ↦ record {
      tag = 242;
      body = uvarint_bytes (length s) ++ (uvarint_bytes (length (compress s)) ++ compress s);
      shape = rw (long, small) refl;
      no_list = refl;
      reads = λ start. tagged-compressed start s rest v size long small;
    }
    | inr large ↦ record {
      tag = 254;
      body = uvarint_bytes (length s) ++ s;
      shape = rw (long, large) refl;
      no_list = refl;
      reads = λ start. tagged-long start s rest v size long large;
    }
  ]
]
