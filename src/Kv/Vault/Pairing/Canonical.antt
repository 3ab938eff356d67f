-- ===== src/Kv/Vault/Pairing/Canonical.antt =====
-- Which blobs kv/vault/pairing.go reads: those that it writes, and no others.
use repani.Base.{
  ℕ, ◌+◌, ◌≡◌, sym, ap, ◌∙◌, ◌++◌, length, take, drop, take-append-drop, Bytes, Bool, true, ◌&&◌,
  if◌then◌else◌, is_eq, compare_bytes, compare_bytes-eq, ◌==◌, ==_iff, and-both, Option, none, some,
  Result, ok, err, ok_injective, if-ok, if-cases, bind-ok, ◌>>=◌, inl, inr, arith,
}
use repani.Base.Base32.{encode_to_string, decode_string, encoded_len}
use repani.Kv.Vault.Sizes.{root_key_size, register_key_size}
use repani.Kv.Vault.Pairing.{
  PairingError, bad_pairing_blob, normalize, checked, decode, encode_root_key, encode_register_key,
  encode_backup, decode_root_key, decode_register_key, root_alone, root_and_register, decode_backup,
}
use repani.Kv.Vault.Pairing.Normal.{normalize_idempotent, normalize-take, normalize-drop}

-- `text` is the blob of the key `b` of `n` bytes.
abbrev IsBlob : Bytes → ℕ → Bytes → Type 0
IsBlob text n b = (text ≡ encode_to_string b) × (length b ≡ n)

is_eq-same : (a b : Bytes) → is_eq (compare_bytes a b) ≡ true → a ≡ b
is_eq-same a b e = compare_bytes-eq a b (ground arith)

checked-canonical :
    (raw : Bytes) (n : ℕ) (o : Option Bytes) (b : Bytes) → checked raw n o ≡ ok b → IsBlob raw n b
unfolding checked
checked-canonical raw n none b e = ground arith
checked-canonical raw n (some c) b e =
    let (test, read) =
      if-ok (length c == n && is_eq (compare_bytes (encode_to_string c) raw)) (ok c)
        bad_pairing_blob b e in
    let (fits, same) = and-both (length c == n) _ test in
    let key : c ≡ b = ok_injective c b read in
    (
      sym (is_eq-same (encode_to_string c) raw same) ∙ ap encode_to_string key,
      sym (ap length key) ∙ (==_iff (length c) n).0 fits,
    )

decode-canonical : (raw b : Bytes) (n : ℕ) → decode raw n ≡ ok b → IsBlob raw n b
unfolding decode
decode-canonical raw b n e =
    let (_, read) =
      if-ok (length raw == encoded_len n) (checked raw n (decode_string raw)) bad_pairing_blob b
        e in
    checked-canonical raw n (decode_string raw) b read

decode_root_key-canonical :
    (s rk : Bytes) → decode_root_key s ≡ ok rk → IsBlob (normalize s) root_key_size rk
unfolding decode_root_key
decode_root_key-canonical s rk e = decode-canonical (normalize s) rk root_key_size e

decode_register_key-canonical :
    (s reg : Bytes) → decode_register_key s ≡ ok reg → IsBlob (normalize s) register_key_size reg
unfolding decode_register_key
decode_register_key-canonical s reg e = decode-canonical (normalize s) reg register_key_size e

-- The keys of a backup that was read, through the pair that holds them.
same_backup :
    (text rk rk' : Bytes) (reg reg' : Option Bytes)
    → text ≡ encode_backup rk' reg'
    → ◌≡◌ {A = Result PairingError (Bytes × Option Bytes)} (ok (rk', reg')) (ok (rk, reg))
    → text ≡ encode_backup rk reg
same_backup text rk rk' reg reg' e k =
    e
    ∙ ap (λ (p : Bytes × Option Bytes). encode_backup p.0 p.1)
        (ok_injective {E = PairingError} (rk', reg') (rk, reg) k)

root_alone-canonical :
    (s rk : Bytes) (reg : Option Bytes)
    → root_alone (normalize s) ≡ ok (rk, reg)
    → normalize s ≡ encode_backup rk reg
unfolding root_alone encode_backup encode_root_key
root_alone-canonical s rk reg e =
    let (rk', (read, same)) =
      bind-ok (decode_root_key (normalize s)) (λ (x : Bytes). ok (x, none)) (rk, reg) e in
    let (blob, _) = decode_root_key-canonical (normalize s) rk' read in
    same_backup (normalize s) rk rk' reg none (sym (normalize_idempotent s) ∙ blob) same

root_and_register-canonical :
    (s rk : Bytes) (reg : Option Bytes)
    → root_and_register (normalize s) ≡ ok (rk, reg)
    → normalize s ≡ encode_backup rk reg
unfolding root_and_register encode_backup encode_root_key encode_register_key
root_and_register-canonical s rk reg e =
    let head : Bytes = take (encoded_len root_key_size) (normalize s) in
    let tail : Bytes = drop (encoded_len root_key_size) (normalize s) in
    let (rk', (read, rest)) =
      bind-ok (decode_root_key head)
        (λ (x : Bytes). decode_register_key tail >>= λ (y : Bytes). ok (x, some y)) (rk, reg) e in
    let (reg', (read_reg, same)) =
      bind-ok (decode_register_key tail) (λ (y : Bytes). ok (rk', some y)) (rk, reg) rest in
    let (blob, _) = decode_root_key-canonical head rk' read in
    let (blob_reg, _) = decode_register_key-canonical tail reg' read_reg in
    let root : head ≡ encode_to_string rk' = sym (normalize-take 32 s) ∙ blob in
    let register : tail ≡ encode_to_string reg' = sym (normalize-drop 32 s) ∙ blob_reg in
    let whole : head ++ tail ≡ encode_to_string rk' ++ encode_to_string reg' =
      ap (λ (t : Bytes). t ++ tail) root ∙ ap (λ (t : Bytes). encode_to_string rk' ++ t) register in
    same_backup (normalize s) rk rk' reg (some reg')
      (sym (take-append-drop (encoded_len root_key_size) (normalize s)) ∙ whole) same

-- DecodeBackup takes no text but those that normalize takes to the backup of the keys that it
-- returns: padding bits, a wrong length or another character are an error.
pub encode_backup-decode_backup :
    (s rk : Bytes) (reg : Option Bytes)
    → decode_backup s ≡ ok (rk, reg)
    → normalize s ≡ encode_backup rk reg
unfolding decode_backup
encode_backup-decode_backup s rk reg e =
    let raw : Bytes = normalize s in
    let both : Result PairingError (Bytes × Option Bytes) = root_and_register raw in
    let long : Bool = length raw == encoded_len root_key_size + encoded_len register_key_size in
    elim (if-cases (length raw == encoded_len root_key_size) (root_alone raw)
      (if long then both else err bad_pairing_blob) (ok (rk, reg)) e) [
        | inl alone ↦ root_alone-canonical s rk reg alone
        | inr rest ↦
            root_and_register-canonical s rk reg (if-ok long both bad_pairing_blob (rk, reg) rest).1
      ]
