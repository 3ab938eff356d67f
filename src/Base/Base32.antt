-- ===== src/Base/Base32.antt =====
-- encoding/base32 without padding, over Crockford's alphabet, as kv/vault/pairing.go sets it up: five
-- bytes are eight digits, and a last group of fewer bytes the digits that their bits need.
pub mod RoundTrip
use repani.Base.{
  ℕ, zero, suc, ◌+◌, ◌*◌, ◌/◌, ◌%◌, ◌<◌, ◌≡◌, refl, ap, ◌∙◌, Bool, true, false, List, [], ◌∷◌,
  Bytes, IsByte, All, length, get_or, map, ◌==◌, ◌&&◌, if◌then◌else◌, Option, none, some, inl, inr,
  Bool-cases, and-both, arith,
}

abbrev pub alphabet : Bytes
alphabet =
    b'0' ∷ b'1' ∷ b'2' ∷ b'3' ∷ b'4' ∷ b'5' ∷ b'6' ∷ b'7' ∷ b'8' ∷ b'9' ∷ b'A' ∷ b'B' ∷ b'C' ∷ b'D'
    ∷ b'E' ∷ b'F' ∷ b'G' ∷ b'H' ∷ b'J' ∷ b'K' ∷ b'M' ∷ b'N' ∷ b'P' ∷ b'Q' ∷ b'R' ∷ b'S' ∷ b'T'
    ∷ b'V' ∷ b'W' ∷ b'X' ∷ b'Y' ∷ b'Z' ∷ []

unfoldable pub digit_char : ℕ → ℕ
digit_char d = get_or alphabet d 0

unfoldable pub index_from : ℕ → Bytes → ℕ → Option ℕ
index_from c [] i = none
index_from c (a ∷ as') i = if a == c then some i else index_from c as' (suc i)

unfoldable pub char_digit : ℕ → Option ℕ
char_digit c = index_from c alphabet 0

-- The digits of some bytes: 5 bits each, the last filled up with zeros.
unfoldable pub digits : Bytes → List ℕ
digits [] = []
digits (a ∷ []) = (a / 8) ∷ (a % 8 * 4) ∷ []
digits (a ∷ b ∷ []) = (a / 8) ∷ (a % 8 * 4 + b / 64) ∷ (b / 2 % 32) ∷ (b % 2 * 16) ∷ []
digits (a ∷ b ∷ c ∷ []) =
    (a / 8) ∷ (a % 8 * 4 + b / 64) ∷ (b / 2 % 32) ∷ (b % 2 * 16 + c / 16) ∷ (c % 16 * 2) ∷ []
digits (a ∷ b ∷ c ∷ d ∷ []) =
    (a / 8)
    ∷ (a % 8 * 4 + b / 64)
    ∷ (b / 2 % 32)
    ∷ (b % 2 * 16 + c / 16)
    ∷ (c % 16 * 2 + d / 128)
    ∷ d / 4 % 32
    ∷ (d % 4 * 8)
    ∷ []
digits (a ∷ b ∷ c ∷ d ∷ e ∷ rest) =
    (a / 8)
    ∷ (a % 8 * 4 + b / 64)
    ∷ (b / 2 % 32)
    ∷ (b % 2 * 16 + c / 16)
    ∷ (c % 16 * 2 + d / 128)
    ∷ d / 4 % 32
    ∷ (d % 4 * 8 + e / 32)
    ∷ (e % 32)
    ∷ digits rest

abbrev pub first_byte : ℕ → ℕ → ℕ
first_byte a b = a * 8 + b / 4

abbrev pub second_byte : ℕ → ℕ → ℕ → ℕ
second_byte b c d = b % 4 * 64 + c * 2 + d / 16

abbrev pub third_byte : ℕ → ℕ → ℕ
third_byte d e = d % 16 * 16 + e / 2

abbrev pub fourth_byte : ℕ → ℕ → ℕ → ℕ
fourth_byte e f g = e % 2 * 128 + f * 4 + g / 8

abbrev pub fifth_byte : ℕ → ℕ → ℕ
fifth_byte g h = g % 8 * 32 + h

-- The bytes of some digits: a last group of 1, 3 or 6 digits, which no encoder writes, gives none.
unfoldable pub bytes : List ℕ → Bytes
bytes (a ∷ b ∷ []) = first_byte a b ∷ []
bytes (a ∷ b ∷ c ∷ d ∷ []) = first_byte a b ∷ second_byte b c d ∷ []
bytes (a ∷ b ∷ c ∷ d ∷ e ∷ []) = first_byte a b ∷ second_byte b c d ∷ third_byte d e ∷ []
bytes (a ∷ b ∷ c ∷ d ∷ e ∷ f ∷ g ∷ []) =
    first_byte a b ∷ second_byte b c d ∷ third_byte d e ∷ fourth_byte e f g ∷ []
bytes (a ∷ b ∷ c ∷ d ∷ e ∷ f ∷ g ∷ h ∷ rest) =
    first_byte a b
    ∷ second_byte b c d
    ∷ third_byte d e
    ∷ fourth_byte e f g
    ∷ fifth_byte g h
    ∷ bytes rest
bytes _ = []

abbrev pub join_digit : Option ℕ → Option (List ℕ) → Option (List ℕ)
join_digit (some d) (some ds) = some (d ∷ ds)
join_digit _ _ = none

unfoldable pub read_digits : Bytes → Option (List ℕ)
read_digits [] = some []
read_digits (c ∷ cs) = join_digit (char_digit c) (read_digits cs)

-- EncodeToString, DecodeString and EncodedLen.
unfoldable pub encode_to_string : Bytes → Bytes
encode_to_string bs = map digit_char (digits bs)

unfoldable pub decode_string : Bytes → Option Bytes
decode_string text = elim (read_digits text) [ none ↦ none | some ds ↦ some (bytes ds) ]

abbrev pub encoded_len : ℕ → ℕ
encoded_len n = n / 5 * 8 + (n % 5 * 8 + 4) / 5
