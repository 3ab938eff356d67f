-- ===== src/Kv/Vault/Pairing.antt =====
-- kv/vault/pairing.go: keys as Crockford base32 text. A text is its UTF-8 bytes; strings.Map keeps the
-- runes beyond ASCII, and so their bytes. A key is the list of its bytes.
pub mod Normal
pub mod RoundTrip
pub mod Canonical
mod Examples
use repani.Base.{
  ℕ, ◌+◌, ◌-◌, List, [], ◌∷◌, ◌++◌, length, take, drop, Bytes, is_eq, compare_bytes, leb, ◌==◌,
  ◌&&◌, ◌||◌, if◌then◌else◌, Option, none, some, Result, ok, err, ◌>>=◌,
}
use repani.Base.Base32.{encode_to_string, decode_string, encoded_len}
use repani.Kv.Vault.Sizes.{root_key_size, register_key_size}

-- ErrBadPairingBlob
pub data PairingError : Type 0 where
  bad_pairing_blob : PairingError

-- The function that normalize maps over the text; `none` drops the character.
unfoldable pub normal_char : ℕ → Option ℕ
normal_char c =
    if c == b' ' || (c == 9 || (c == 10 || (c == 13 || c == b'-')))
    then none
    else if c == b'O' || c == b'o'
    then some b'0'
    else if c == b'I' || (c == b'i' || (c == b'L' || c == b'l'))
    then some b'1'
    else if leb b'a' c && leb c b'z'
    then some (c - b'a' + b'A')
    else some c

unfoldable pub keep : Option ℕ → Bytes → Bytes
keep none cs = cs
keep (some c) cs = c ∷ cs

unfoldable pub normalize : Bytes → Bytes
normalize [] = []
normalize (c ∷ cs) = keep (normal_char c) (normalize cs)

unfoldable pub checked : Bytes → ℕ → Option Bytes → Result PairingError Bytes
checked raw n none = err bad_pairing_blob
checked raw n (some b) =
    if length b == n && is_eq (compare_bytes (encode_to_string b) raw)
    then ok b
    else err bad_pairing_blob

unfoldable pub decode : Bytes → ℕ → Result PairingError Bytes
decode raw n =
    if length raw == encoded_len n then checked raw n (decode_string raw) else err bad_pairing_blob

unfoldable pub encode_root_key : Bytes → Bytes
encode_root_key rk = encode_to_string rk

unfoldable pub encode_register_key : Bytes → Bytes
encode_register_key rk = encode_to_string rk

unfoldable pub encode_backup : Bytes → Option Bytes → Bytes
encode_backup rk none = encode_root_key rk
encode_backup rk (some reg_key) = encode_root_key rk ++ encode_register_key reg_key

unfoldable pub decode_root_key : Bytes → Result PairingError Bytes
decode_root_key s = decode (normalize s) root_key_size

unfoldable pub decode_register_key : Bytes → Result PairingError Bytes
decode_register_key s = decode (normalize s) register_key_size

-- The branches of DecodeBackup's switch.
unfoldable pub root_alone : Bytes → Result PairingError (Bytes × Option Bytes)
root_alone raw = decode_root_key raw >>= λ rk. ok (rk, none)

unfoldable pub root_and_register : Bytes → Result PairingError (Bytes × Option Bytes)
root_and_register raw = decode_root_key (take (encoded_len root_key_size) raw) >>= λ rk.
    decode_register_key (drop (encoded_len root_key_size) raw) >>= λ reg. ok (rk, some reg)

unfoldable pub decode_backup : Bytes → Result PairingError (Bytes × Option Bytes)
decode_backup s =
    let raw = normalize s in
    if length raw == encoded_len root_key_size
    then root_alone raw
    else if length raw == encoded_len root_key_size + encoded_len register_key_size
    then root_and_register raw
    else err bad_pairing_blob
