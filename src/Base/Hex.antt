-- ===== src/Base/Hex.antt =====
-- encoding/hex: EncodeToString in lower case, and DecodeString, which takes either case.
use repani.Base.{
  ℕ, ◌+◌, ◌-◌, ◌*◌, ◌/◌, ◌%◌, ◌≡◌, ◌<◌, refl, ap, [], ◌∷◌, Bytes, IsByte, All, ltb, leb, ◌&&◌,
  if◌then◌else◌, Option, none, some, arith,
}

abbrev pub hex_digit : ℕ → ℕ
hex_digit d = if ltb d 10 then b'0' + d else b'a' + (d - 10)

unfoldable pub hex_encode : Bytes → Bytes
hex_encode [] = []
hex_encode (b ∷ bs) = hex_digit (b / 16) ∷ hex_digit (b % 16) ∷ hex_encode bs

abbrev pub hex_value : ℕ → Option ℕ
hex_value c =
    if leb b'0' c && leb c b'9'
    then some (c - b'0')
    else if leb b'a' c && leb c b'f'
    then some (c - b'a' + 10)
    else if leb b'A' c && leb c b'F'
    then some (c - b'A' + 10)
    else none

abbrev pub hex_pair : Option ℕ → Option ℕ → Option Bytes → Option Bytes
hex_pair (some a) (some b) (some rest) = some ((a * 16 + b) ∷ rest)
hex_pair _ _ _ = none

unfoldable pub hex_decode : Bytes → Option Bytes
hex_decode [] = some []
hex_decode (c ∷ []) = none
hex_decode (c ∷ d ∷ cs) = hex_pair (hex_value c) (hex_value d) (hex_decode cs)

pub hex_value-hex_digit : (d : ℕ) → d < 16 → hex_value (hex_digit d) ≡ some d
hex_value-hex_digit d h = ground arith

pub hex_decode-hex_encode : (bs : Bytes) → All IsByte bs → hex_decode (hex_encode bs) ≡ some bs
unfolding hex_encode hex_decode
hex_decode-hex_encode [] h = refl
hex_decode-hex_encode (b ∷ bs) (h, hs) =
    let back : b / 16 * 16 + b % 16 ≡ b = omega arith in
    rw
      (
        hex_value-hex_digit (b / 16) (omega arith),
        hex_value-hex_digit (b % 16) (omega arith),
        hex_decode-hex_encode bs hs,
      )
      (ap (λ (x : ℕ). some (x ∷ bs)) back)
