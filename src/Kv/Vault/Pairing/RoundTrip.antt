-- ===== src/Kv/Vault/Pairing/RoundTrip.antt =====
-- The blobs that kv/vault/pairing.go writes, and the only ones that it reads.
use repani.Base.{
  ℕ, ◌≡◌, refl, ap, ◌∙◌, ◌++◌, All, length, take-append, drop-append, length-append, Bytes, IsByte,
  true, compare_bytes_refl, ◌==◌, Option, none, some, ok, arith,
}
use repani.Base.Base32.{encode_to_string, encoded_len}
use repani.Base.Base32.RoundTrip.{decode_string-encode_to_string, length-encode_to_string}
use repani.Kv.Vault.Sizes.{root_key_size, register_key_size}
use repani.Kv.Vault.Pairing.{
  normalize, checked, decode, encode_root_key, encode_register_key, encode_backup, decode_root_key,
  decode_register_key, root_alone, root_and_register, decode_backup,
}
use repani.Kv.Vault.Pairing.Normal.{normalize_fixes, encode_to_string-IsNormal}

-- A key of `n` bytes.
abbrev pub IsKey : ℕ → Bytes → Type 0
IsKey n b = (length b ≡ n) × All IsByte b

abbrev pub IsBackupKey : Option Bytes → Type 0
IsBackupKey none = Unit
IsBackupKey (some reg) = IsKey register_key_size reg

decode-encode_to_string : (n : ℕ) (b : Bytes) → IsKey n b → decode (encode_to_string b) n ≡ ok b
unfolding decode checked
decode-encode_to_string n b (size, bytes) =
    let long : (length (encode_to_string b) == encoded_len n) ≡ true =
      rw (length-encode_to_string b, size) (ground arith) in
    let fits : (length b == n) ≡ true = ground arith in
    simp
      (
        decode,
        long,
        decode_string-encode_to_string b bytes,
        checked,
        fits,
        compare_bytes_refl (encode_to_string b),
      )
      refl

normalize-encode_to_string :
    (b : Bytes) → All IsByte b → normalize (encode_to_string b) ≡ encode_to_string b
normalize-encode_to_string b h =
    normalize_fixes (encode_to_string b) (encode_to_string-IsNormal b h)

decode_root_key-encode_root_key :
    (rk : Bytes) → IsKey root_key_size rk → decode_root_key (encode_to_string rk) ≡ ok rk
unfolding decode_root_key
decode_root_key-encode_root_key rk (size, bytes) =
    rw (normalize-encode_to_string rk bytes)
      (decode-encode_to_string root_key_size rk (size, bytes))

decode_register_key-encode_register_key :
    (reg : Bytes)
    → IsKey register_key_size reg
    → decode_register_key (encode_to_string reg) ≡ ok reg
unfolding decode_register_key
decode_register_key-encode_register_key reg (size, bytes) =
    rw (normalize-encode_to_string reg bytes)
      (decode-encode_to_string register_key_size reg (size, bytes))

root_length : (rk : Bytes) → IsKey root_key_size rk → length (encode_to_string rk) ≡ 32
root_length rk (size, _) = length-encode_to_string rk ∙ ap encoded_len size

register_length : (reg : Bytes) → IsKey register_key_size reg → length (encode_to_string reg) ≡ 26
register_length reg (size, _) = length-encode_to_string reg ∙ ap encoded_len size

-- A backup is read back from every text that normalize takes to it, whatever its case, spaces and
-- dashes: the RootKey alone or with its RegisterKey.
pub decode_backup-encode_backup :
    (s rk : Bytes) (reg : Option Bytes)
    → IsKey root_key_size rk
    → IsBackupKey reg
    → normalize s ≡ encode_backup rk reg
    → decode_backup s ≡ ok (rk, reg)
unfolding decode_backup encode_backup root_alone root_and_register encode_root_key
    encode_register_key
decode_backup-encode_backup s rk none k _ e =
    rw (e, root_length rk k, decode_root_key-encode_root_key rk k) refl
decode_backup-encode_backup s rk (some reg) k kr e =
    let whole : length (encode_to_string rk ++ encode_to_string reg) ≡ 58 = omega (
      arith,
      length-append (encode_to_string rk) (encode_to_string reg),
      root_length rk k,
      register_length reg kr,
    ) in
    simp
      (
        decode_backup,
        e,
        whole,
        root_and_register,
        take-append 32 (encode_to_string rk) (encode_to_string reg) (root_length rk k),
        drop-append 32 (encode_to_string rk) (encode_to_string reg) (root_length rk k),
        decode_root_key-encode_root_key rk k,
        decode_register_key-encode_register_key reg kr,
      )
      refl
