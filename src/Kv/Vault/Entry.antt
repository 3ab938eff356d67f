-- ===== src/Kv/Vault/Entry.antt =====
-- kv/vault/entry.go: the entry and its marshalled form. Fixed arrays and slices are byte lists; the
-- length of an array is part of `IsEntry`.
pub mod Layout
pub mod RoundTrip
use repani.Base.{
  ℕ, ◌+◌, ◌%◌, ◌^◌, ◌≤◌, ◌<◌, ◌≡◌, length, take, drop, replicate, All, write_at, Bytes, IsByte,
  put_le, get_le, ltb, if◌then◌else◌, Result, ok, err, arith,
}
use repani.Kv.Vault.Sizes.{nonce_size, aead_tag_size, entry_header_size, max_entry_bytes}

pub record Entry : Type 0 where
  pub ts_ms : ℕ
  pub nonce : Bytes
  pub ct : Bytes

-- The errors of entry.go; a message's numbers are left out.
pub data EntryError : Type 0 where
  entry_short entry_corrupt entry_too_large : EntryError

-- Entry.Size
unfoldable pub size : Entry → ℕ
size e = entry_header_size + length e.ct

-- Entry.putHeader: the three fields written at their offsets of `buf`.
unfoldable pub put_header : Entry → Bytes → Bytes
put_header e buf =
    let b1 = write_at 0 (put_le 8 e.ts_ms) buf in
    let b2 = write_at 8 e.nonce b1 in write_at (8 + nonce_size) (put_le 2 (length e.ct % 2 ^ 16)) b2

-- Entry.MarshalTo, less the count that it returns, which is `size e`.
unfoldable pub marshal_to : Entry → Bytes → Bytes
unfolding put_header
marshal_to e buf = write_at entry_header_size e.ct (put_header e buf)

-- Entry.Marshal: into a fresh slice.
unfoldable pub marshal : Entry → Bytes
unfolding marshal_to size
marshal e = marshal_to e (replicate (size e) 0)

-- Entry.Header
unfoldable pub header : Entry → Bytes
unfolding put_header
header e = put_header e (replicate entry_header_size 0)

-- UnmarshalEntry: the entry and the bytes consumed.
unfoldable pub unmarshal_entry : Bytes → Result EntryError (Entry × ℕ)
unmarshal_entry b =
    if ltb (length b) entry_header_size
    then err entry_short
    else let ct_len = get_le (take 2 (drop (8 + nonce_size) b)) in
      let total = entry_header_size + ct_len in
      if ltb ct_len aead_tag_size
      then err entry_corrupt
      else if ltb max_entry_bytes total
      then err entry_too_large
      else if ltb (length b) total
      then err entry_corrupt
      else ok (
        record {
          ts_ms = get_le (take 8 b);
          nonce = take nonce_size (drop 8 b);
          ct = take ct_len (drop entry_header_size b);
        },
        total,
      )

-- What an Entry of the Go type holds by its type: a uint64, a 16-byte array, a byte slice.
pub record IsEntry (e : Entry) : Type 0 where
  pub ts_fits : e.ts_ms < 2 ^ 64
  pub nonce_length : length e.nonce ≡ nonce_size
  pub nonce_bytes : All IsByte e.nonce
  pub ct_bytes : All IsByte e.ct

-- An entry that UnmarshalEntry can return: the ciphertext has its tag, and the whole fits a frame.
pub record IsStorable (e : Entry) : Type 0 where
  pub typed : IsEntry e
  pub has_tag : aead_tag_size ≤ length e.ct
  pub fits : entry_header_size + length e.ct ≤ max_entry_bytes
