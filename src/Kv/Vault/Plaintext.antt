-- ===== src/Kv/Vault/Plaintext.antt =====
-- kv/vault/entry.go: Seal and Open, over the AEAD interface. `EntryNonce` (random bytes, the clock
-- and CXOF) enters as the nonce it returns, or none for its error.
pub mod RoundTrip
use repani.Base.{
  ℕ, ◌+◌, ◌%◌, ◌^◌, [], ◌∷◌, length, take, drop, replicate, write_at, Bytes, put_le, get_le, get_or,
  ltb, ◌==◌, not, if◌then◌else◌, Result, ok, err, Option, none, some,
}
use repani.Kv.Vault.Sizes.{nonce_size, aead_tag_size, entry_header_size, max_entry_bytes}
use repani.Kv.Vault.Aead.{Aead}
use repani.Kv.Vault.Entry.{Entry, header}

pub data SealError : Type 0 where
  empty_key key_too_long value_too_long entry_too_large no_nonce : SealError

pub data OpenError : Type 0 where
  not_opened plaintext_bad : OpenError

-- The plaintext: key_len(1) | key | value_len(2) | value, written into a fresh slice.
unfoldable pub plaintext : Bytes → Bytes → Bytes
plaintext key value =
    let pt = replicate (1 + length key + 2 + length value) 0 in
    let p1 = write_at 0 (length key % 2 ^ 8 ∷ []) pt in
    let p2 = write_at 1 key p1 in
    let p3 = write_at (1 + length key) (put_le 2 (length value % 2 ^ 16)) p2 in
    write_at (1 + length key + 2) value p3

-- The associated data that Seal builds, for a ciphertext of `ct_len` bytes.
unfoldable pub seal_header : ℕ → Bytes → ℕ → Bytes
seal_header ts_ms nonce ct_len =
    let ad = replicate entry_header_size 0 in
    let a1 = write_at 0 (put_le 8 ts_ms) ad in
    let a2 = write_at 8 nonce a1 in write_at (8 + nonce_size) (put_le 2 (ct_len % 2 ^ 16)) a2

module _ (aead : Aead) where
  open aead use {seal as aead_seal}

  unfoldable pub seal : Option Bytes → ℕ → Bytes → Bytes → Result SealError Entry
  unfolding plaintext seal_header
  seal fresh ts_ms key value =
      if length key == 0
      then err empty_key
      else if ltb 0xff (length key)
      then err key_too_long
      else if ltb 0xffff (length value)
      then err value_too_long
      else let pt = plaintext key value in
        let ct_len = length pt + aead_tag_size in
        if ltb max_entry_bytes (entry_header_size + ct_len)
        then err entry_too_large
        else elim fresh [
          | none ↦ err no_nonce
          | some nonce ↦
              let ad = seal_header ts_ms nonce ct_len in
              ok (record { ts_ms = ts_ms; nonce = nonce; ct = aead_seal nonce pt ad })
        ]

-- The key and value inside an opened plaintext.
unfoldable pub split_plaintext : Bytes → Result OpenError (Bytes × Bytes)
split_plaintext pt =
    if ltb (length pt) 3
    then err plaintext_bad
    else let klen = get_or pt 0 0 in
      if ltb (length pt) (1 + klen + 2)
      then err plaintext_bad
      else let vlen = get_le (take 2 (drop (1 + klen) pt)) in
        if not (1 + klen + 2 + vlen == length pt)
        then err plaintext_bad
        else ok (take klen (drop 1 pt), drop (1 + klen + 2) pt)

module _ (aead : Aead) where
  open aead use {open_sealed}

  unfoldable pub open_entry : Entry → Result OpenError (Bytes × Bytes)
  unfolding split_plaintext
  open_entry e = elim (open_sealed e.nonce e.ct (header e)) [
    | none ↦ err not_opened
    | some pt ↦ split_plaintext pt
  ]
