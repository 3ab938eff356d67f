-- ===== src/Kv/Vault/Pairing/Examples.antt =====
-- Blobs of kv/vault/pairing.go, written and read.
use repani.Base.{◌≡◌, refl, [], ◌∷◌, ◌++◌, replicate, Bytes, compare_bytes, ok, err, some, arith}
use repani.Base.Base32.{
  encode_to_string, decode_string, digits, digit_char, char_digit, index_from, bytes, read_digits,
}
use repani.Kv.Vault.Pairing.{
  bad_pairing_blob, normal_char, keep, normalize, checked, decode, encode_root_key,
  encode_register_key, encode_backup, decode_register_key, decode_backup,
}
use repani.Kv.Vault.Pairing.RoundTrip.{decode_backup-encode_backup}
use repani.Kv.Vault.Pairing.Canonical.{encode_backup-decode_backup}
use repani.Kv.Samples.{replicate-IsByte}

abbrev root_key : Bytes
root_key = replicate 20 200

abbrev reg_key : Bytes
reg_key = replicate 16 7

-- The backup as it may be typed: a space in front, and a dash.
abbrev typed : Bytes
typed = b' ' ∷ b'-' ∷ encode_backup root_key (some reg_key)

typed-reads : normalize typed ≡ encode_backup root_key (some reg_key)
unfolding normalize keep normal_char encode_backup encode_root_key encode_register_key
    encode_to_string digits digit_char
typed-reads = refl

decode_backup-encode_backup_example : decode_backup typed ≡ ok (root_key, some reg_key)
decode_backup-encode_backup_example =
    decode_backup-encode_backup typed root_key (some reg_key)
      (refl, replicate-IsByte 20 200 (omega arith)) (refl, replicate-IsByte 16 7 (omega arith))
      typed-reads

encode_backup-decode_backup_example : normalize typed ≡ encode_backup root_key (some reg_key)
encode_backup-decode_backup_example =
    encode_backup-decode_backup typed root_key (some reg_key) decode_backup-encode_backup_example

-- "oil" is read as "011".
normalize_oil : normalize (b'o' ∷ b'i' ∷ b'l' ∷ []) ≡ b'0' ∷ b'1' ∷ b'1' ∷ []
unfolding normalize keep normal_char
normalize_oil = refl

decode_backup_short : decode_backup (replicate 31 b'0') ≡ err bad_pairing_blob
unfolding decode_backup normalize keep normal_char
decode_backup_short = refl

-- The last character of a RegisterKey has two padding bits, which must be zero.
decode_register_key_padding :
    decode_register_key (replicate 25 b'0' ++ b'1' ∷ []) ≡ err bad_pairing_blob
unfolding decode_register_key normalize keep normal_char decode checked decode_string read_digits
    char_digit index_from bytes compare_bytes encode_to_string digits digit_char
decode_register_key_padding = refl
