-- ===== src/Kv/Vault/Entry/Layout.antt =====
-- The marshalled form as a concatenation of its fields, and its length.
use repani.Base.{
  ℕ, ◌+◌, ◌%◌, ◌^◌, ◌≡◌, refl, ap, ◌∙◌, length, replicate, length-append, write_at, write_at-append,
  Bytes, put_le, length-put_le, arith, ◌++◌, [], append-nil, All, IsByte, All-append, put_le-IsByte,
}
use repani.Kv.Vault.Sizes.{nonce_size, entry_header_size}
use repani.Kv.Vault.Entry.{Entry, IsEntry, size, put_header, marshal_to, marshal, header}

abbrev pub header_fields : Entry → Bytes
header_fields e = (put_le 8 e.ts_ms ++ e.nonce) ++ put_le 2 (length e.ct % 2 ^ 16)

pub length-header_fields :
    (e : Entry) → length e.nonce ≡ nonce_size → length (header_fields e) ≡ entry_header_size
length-header_fields e n = omega (
  arith,
  length-append (put_le 8 e.ts_ms ++ e.nonce) (put_le 2 (length e.ct % 2 ^ 16)),
  length-append (put_le 8 e.ts_ms) e.nonce,
  length-put_le 8 e.ts_ms,
  length-put_le 2 (length e.ct % 2 ^ 16),
)

-- Over a zeroed buffer with room, the header is its three fields.
pub put_header-append :
    (e : Entry) (k j : ℕ)
    → length e.nonce ≡ nonce_size
    → entry_header_size + j ≡ k
    → put_header e (replicate k 0) ≡ header_fields e ++ replicate j 0
unfolding put_header
put_header-append e k j n h =
    let ts = put_le 8 e.ts_ms in
    let ct_len = put_le 2 (length e.ct % 2 ^ 16) in
    let ts_length : length ts ≡ 8 = length-put_le 8 e.ts_ms in
    let ct_length : length ct_len ≡ 2 = length-put_le 2 (length e.ct % 2 ^ 16) in
    let ahead : length (ts ++ e.nonce) ≡ 24 = omega (arith, length-append ts e.nonce) in
    ap (λ b. write_at 24 ct_len (write_at 8 e.nonce b))
      (write_at-append 0 k (18 + j) 0 [] ts refl (omega arith))
    ∙ ap (λ b. write_at 24 ct_len b)
        (write_at-append 8 (18 + j) (2 + j) 0 ts e.nonce ts_length (omega arith))
    ∙ write_at-append 24 (2 + j) j 0 (ts ++ e.nonce) ct_len ahead (omega arith)

-- MarshalTo into a zeroed buffer with `j` bytes to spare.
pub marshal_to-append :
    (e : Entry) (k j : ℕ)
    → length e.nonce ≡ nonce_size
    → size e + j ≡ k
    → marshal_to e (replicate k 0) ≡ (header_fields e ++ e.ct) ++ replicate j 0
unfolding marshal_to size
marshal_to-append e k j n h =
    ap (λ b. write_at 26 e.ct b) (put_header-append e k (length e.ct + j) n (omega arith))
    ∙ write_at-append 26 (length e.ct + j) j 0 (header_fields e) e.ct (length-header_fields e n)
        refl

pub marshal-append : (e : Entry) → length e.nonce ≡ nonce_size → marshal e ≡ header_fields e ++ e.ct
unfolding marshal
marshal-append e n =
    marshal_to-append e (size e) 0 n (omega arith) ∙ append-nil (header_fields e ++ e.ct)

pub header-fields : (e : Entry) → length e.nonce ≡ nonce_size → header e ≡ header_fields e
unfolding header
header-fields e n = put_header-append e 26 0 n (omega arith) ∙ append-nil (header_fields e)

-- Marshal makes `size e` bytes.
pub length-marshal : (e : Entry) → IsEntry e → length (marshal e) ≡ size e
unfolding size
length-marshal e v = omega (
  arith,
  ap length (marshal-append e v.nonce_length),
  length-append (header_fields e) e.ct,
  length-header_fields e v.nonce_length,
)

pub header_fields-IsByte : (e : Entry) → IsEntry e → All IsByte (header_fields e)
header_fields-IsByte e v =
    All-append IsByte (put_le 8 e.ts_ms ++ e.nonce) (put_le 2 (length e.ct % 2 ^ 16))
      (All-append IsByte (put_le 8 e.ts_ms) e.nonce (put_le-IsByte 8 e.ts_ms) v.nonce_bytes)
      (put_le-IsByte 2 (length e.ct % 2 ^ 16))
