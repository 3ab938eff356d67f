-- ===== src/Kv/Vault/Entry/RoundTrip.antt =====
-- UnmarshalEntry against Marshal, both ways.
use repani.Base.{
  ℕ, ◌+◌, ◌%◌, ◌^◌, ◌≤◌, ◌≡◌, refl, sym, ap, ◌∙◌, length, take, drop, length-append, take-append,
  drop-append, drop-drop, length-take, length-drop, take-append-drop, All-take, All-drop, All,
  Bytes, IsByte, put_le, get_le, length-put_le, get_le-put_le, put_le-get_le, get_le-lt, arith,
  ◌++◌, append_assoc, ok,
}
use repani.Kv.Vault.Sizes.{nonce_size}
use repani.Kv.Vault.Entry.{Entry, IsStorable, size, marshal, unmarshal_entry}
use repani.Kv.Vault.Entry.Layout.{marshal-append, header_fields}

-- Where UnmarshalEntry finds each part of a slice that begins with a header.
module _ (ts nonce n tail : Bytes) (ts8 : length ts ≡ 8) (n16 : length nonce ≡ 16)
    (n2 : length n ≡ 2) where
  abbrev framed : Bytes
  framed = ts ++ (nonce ++ (n ++ tail))

  take_ts : take 8 framed ≡ ts
  take_ts = take-append 8 ts (nonce ++ (n ++ tail)) ts8

  drop_ts : drop 8 framed ≡ nonce ++ (n ++ tail)
  drop_ts = drop-append 8 ts (nonce ++ (n ++ tail)) ts8

  take_nonce : take 16 (drop 8 framed) ≡ nonce
  take_nonce = rw drop_ts (take-append 16 nonce (n ++ tail) n16)

  drop_nonce : drop 24 framed ≡ n ++ tail
  drop_nonce =
      sym (drop-drop 16 8 24 framed refl) ∙ rw drop_ts (drop-append 16 nonce (n ++ tail) n16)

  take_ct_len : take 2 (drop 24 framed) ≡ n
  take_ct_len = rw drop_nonce (take-append 2 n tail n2)

  drop_header : drop 26 framed ≡ tail
  drop_header = sym (drop-drop 2 24 26 framed refl) ∙ rw drop_nonce (drop-append 2 n tail n2)

  length-framed : length framed ≡ 26 + length tail
  length-framed = omega (
    arith,
    length-append ts (nonce ++ (n ++ tail)),
    length-append nonce (n ++ tail),
    length-append n tail,
  )

-- A marshalled entry with anything behind it, bracketed to the right.
framed_lem :
    (e : Entry) (rest : Bytes)
    → length e.nonce ≡ nonce_size
    → marshal e ++ rest
      ≡ put_le 8 e.ts_ms ++ (e.nonce ++ (put_le 2 (length e.ct % 2 ^ 16) ++ (e.ct ++ rest)))
framed_lem e rest n =
    ap (λ b. b ++ rest) (marshal-append e n)
    ∙ append_assoc (header_fields e) e.ct rest
    ∙ append_assoc (put_le 8 e.ts_ms ++ e.nonce) (put_le 2 (length e.ct % 2 ^ 16)) (e.ct ++ rest)
    ∙ append_assoc (put_le 8 e.ts_ms) e.nonce (put_le 2 (length e.ct % 2 ^ 16) ++ (e.ct ++ rest))

-- UnmarshalEntry reads back a storable entry from its marshalled form, whatever bytes follow, and
-- consumes its size.
pub unmarshal_entry-marshal :
    (e : Entry) (rest : Bytes) → IsStorable e → unmarshal_entry (marshal e ++ rest) ≡ ok (e, size e)
unfolding unmarshal_entry size
unmarshal_entry-marshal e rest v =
    let ts = put_le 8 e.ts_ms in
    let n = put_le 2 (length e.ct % 2 ^ 16) in
    let tail = e.ct ++ rest in
    let ts8 : length ts ≡ 8 = length-put_le 8 e.ts_ms in
    let n2 : length n ≡ 2 = length-put_le 2 (length e.ct % 2 ^ 16) in
    let n16 = v.typed.nonce_length in
    let ct_len : length e.ct % 2 ^ 16 ≡ length e.ct = omega (arith, v.fits) in
    let read_n : get_le n ≡ length e.ct =
      get_le-put_le 2 (length e.ct % 2 ^ 16) (omega arith) ∙ ct_len in
    rw framed_lem (
      rw
        (
          drop_header ts e.nonce n tail ts8 n16 n2,
          take_ct_len ts e.nonce n tail ts8 n16 n2,
          take_nonce ts e.nonce n tail ts8 n16 n2,
          take_ts ts e.nonce n tail ts8 n16 n2,
          length-framed ts e.nonce n tail ts8 n16 n2,
          read_n,
          get_le-put_le 8 e.ts_ms v.typed.ts_fits,
          take-append (length e.ct) e.ct rest refl,
          length-append e.ct rest,
        )
        (ground arith))

-- The length field as UnmarshalEntry reads it, and the entry that it builds.
abbrev ct_len_field : Bytes → ℕ
ct_len_field b = get_le (take 2 (drop 24 b))

abbrev fields : Bytes → Entry
fields b = record {
  ts_ms = get_le (take 8 b);
  nonce = take 16 (drop 8 b);
  ct = take (ct_len_field b) (drop 26 b);
}

pub unmarshal_entry_inv :
    (b : Bytes) (e : Entry) (n : ℕ)
    → unmarshal_entry b ≡ ok (e, n)
    → (16 ≤ ct_len_field b)
      × (26 + ct_len_field b ≤ 65536)
      × (26 + ct_len_field b ≤ length b)
      × (n ≡ 26 + ct_len_field b)
      × (fields b ≡ e)
unfolding unmarshal_entry
unmarshal_entry_inv b e n h = ground arith

fields-IsStorable :
    (b : Bytes)
    → All IsByte b
    → 16 ≤ ct_len_field b
    → 26 + ct_len_field b ≤ 65536
    → 26 + ct_len_field b ≤ length b
    → IsStorable (fields b)
fields-IsStorable b bytes tag max room =
    let ct_length : length (take (ct_len_field b) (drop 26 b)) ≡ ct_len_field b =
      omega (arith, length-take (ct_len_field b) (drop 26 b), length-drop 26 b) in
    record {
      typed = record {
        ts_fits =
            get_le-lt 8 (take 8 b) (All-take IsByte 8 b bytes) (omega (arith, length-take 8 b));
        nonce_length = omega (arith, length-take 16 (drop 8 b), length-drop 8 b);
        nonce_bytes = All-take IsByte 16 (drop 8 b) (All-drop IsByte 8 b bytes);
        ct_bytes = All-take IsByte (ct_len_field b) (drop 26 b) (All-drop IsByte 26 b bytes);
      };
      has_tag = omega arith;
      fits = omega arith;
    }

-- The bytes of a slice, cut where UnmarshalEntry cuts it.
cut :
    (b : Bytes) (k : ℕ)
    → take 8 b
        ++ (take 16 (drop 8 b) ++ (take 2 (drop 24 b) ++ (take k (drop 26 b) ++ drop (26 + k) b)))
      ≡ b
cut b k =
    rw
      (
        ← drop-drop k 26 (26 + k) b refl,
        take-append-drop k (drop 26 b),
        ← drop-drop 2 24 26 b refl,
        take-append-drop 2 (drop 24 b),
        ← drop-drop 16 8 24 b refl,
        take-append-drop 16 (drop 8 b),
      )
      (take-append-drop 8 b)

-- What UnmarshalEntry accepts: from any byte slice, an entry that it returns is storable, `n` is the
-- entry's size and at most the slice's length, and the bytes that it consumed are the entry's own
-- marshalled form, so there is one encoding of each entry.
pub marshal-unmarshal_entry :
    (b : Bytes) (e : Entry) (n : ℕ)
    → All IsByte b
    → unmarshal_entry b ≡ ok (e, n)
    → IsStorable e × (n ≡ size e) × (n ≤ length b) × (marshal e ++ drop n b ≡ b)
unfolding size
marshal-unmarshal_entry b e n bytes h =
    let (tag, max, room, is_n, is_e) = unmarshal_entry_inv b e n h in
    let k = ct_len_field b in
    let ct_length : length (take k (drop 26 b)) ≡ k =
      omega (arith, length-take k (drop 26 b), length-drop 26 b) in
    let ct_mod : length (take k (drop 26 b)) % 2 ^ 16 ≡ k = omega arith in
    let storable : IsStorable (fields b) = fields-IsStorable b bytes tag max room in
    let whole : marshal (fields b) ++ drop n b ≡ b =
      framed_lem (fields b) (drop n b) storable.typed.nonce_length
      ∙ rw
          (
            ct_mod,
            put_le-get_le 8 (take 8 b) (All-take IsByte 8 b bytes) (omega (arith, length-take 8 b)),
            put_le-get_le 2 (take 2 (drop 24 b))
                (All-take IsByte 2 (drop 24 b) (All-drop IsByte 24 b bytes))
                (omega (arith, length-take 2 (drop 24 b), length-drop 24 b)),
            is_n,
          )
          (cut b k) in
    rw (← is_e) (storable, is_n ∙ omega arith, omega arith, whole)
