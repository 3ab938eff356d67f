-- ===== src/Row/Examples.antt =====
-- Varints and signed numbers on concrete values.
use repani.Base.{Bytes, List, All, put_le, ◌^◌, ◌≡◌, refl, [], ◌∷◌, ok, err, arith}
use repani.Row.Int.{pos, negsuc}
use repani.Row.Varint.{r006, r007, r008, r001, r002, uvarint, uvarint_bytes}
use repani.Row.Value.{
  Val, k_string, k_none, k_int, k_decimal, k_float, k_item, k_list, utf8_valid, float_ok, IsVal,
}
use repani.Row.Encode.{encode}
use repani.Row.Decode.{decode}
use repani.Row.RoundTrip.{decode-encode}
use repani.Row.OneForm.{encode-decode}
use repani.Row.Zigzag.{zigzag, unzigzag, signed, signed_bytes}

-- A varint that is cut, and one with a byte too many.
uvarint_cut : uvarint 4 (0x80 ∷ []) ≡ err (record { code = r001; offset = 4 })
unfolding uvarint
uvarint_cut = refl

uvarint_long : uvarint 4 (0x80 ∷ 0 ∷ []) ≡ err (record { code = r002; offset = 4 })
unfolding uvarint
uvarint_long = refl

uvarint_300 : uvarint 0 (0xac ∷ 2 ∷ 7 ∷ []) ≡ ok (300, 7 ∷ [])
unfolding uvarint
uvarint_300 = refl

signed_minus_150 : signed 0 (0xab ∷ 2 ∷ 7 ∷ []) ≡ ok (negsuc 149, 7 ∷ [])
unfolding signed uvarint unzigzag
signed_minus_150 = refl

-- "hi", -150, 90.00, and a list of one float.
abbrev sample : List Val
sample =
    k_item (k_string (0x68 ∷ 0x69 ∷ []))
    ∷ k_item (k_int (negsuc 149))
    ∷ k_item (k_decimal (pos 9000) 2)
    ∷ k_list (k_float (2 ^ 62) ∷ k_none ∷ [])
    ∷ []

sample-IsVal : All IsVal sample
unfolding utf8_valid float_ok
sample-IsVal = (
  (refl, omega arith),
  (omega arith, ((omega arith, omega arith), ((((refl, omega arith), (tt, tt)), omega arith), tt))),
)

encode-sample :
    encode sample
    ≡ 2 ∷ 0x68 ∷ 0x69 ∷ 246 ∷ 0xab ∷ 2 ∷ 247 ∷ 2 ∷ 0xd0 ∷ 0x8c ∷ 1 ∷ 255 ∷ 2 ∷ 248 ∷ 0 ∷ 0 ∷ 0 ∷ 0
      ∷ 0 ∷ 0 ∷ 0 ∷ 0x40 ∷ 243 ∷ []
unfolding encode zigzag uvarint_bytes signed_bytes put_le
encode-sample = refl

-- A long string that could be a short one, a list in a list, a float that is not a number.
decode_long_short : decode (254 ∷ 1 ∷ 0x68 ∷ []) ≡ err (record { code = r007; offset = 0 })
unfolding decode uvarint
decode_long_short = refl

decode_nested : decode (255 ∷ 1 ∷ 255 ∷ 0 ∷ []) ≡ err (record { code = r008; offset = 2 })
unfolding decode uvarint
decode_nested = refl

decode_not_utf8 : decode (1 ∷ 0xff ∷ []) ≡ err (record { code = r006; offset = 0 })
unfolding decode uvarint utf8_valid
decode_not_utf8 = refl

decode-encode_example : decode (encode sample) ≡ ok sample
decode-encode_example = decode-encode sample sample-IsVal

-- "hi" and -150.
abbrev short_row : Bytes
short_row = 2 ∷ 0x68 ∷ 0x69 ∷ 246 ∷ 0xab ∷ 2 ∷ []

abbrev short_vals : List Val
short_vals = k_item (k_string (0x68 ∷ 0x69 ∷ [])) ∷ k_item (k_int (negsuc 149)) ∷ []

decode-short_row : decode short_row ≡ ok short_vals
unfolding decode uvarint utf8_valid signed unzigzag
decode-short_row = refl

encode-decode_example : All IsVal short_vals × (encode short_vals ≡ short_row)
encode-decode_example = encode-decode short_row short_vals (ground arith) decode-short_row
