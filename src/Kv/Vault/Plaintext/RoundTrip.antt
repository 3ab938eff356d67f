-- ===== src/Kv/Vault/Plaintext/RoundTrip.antt =====
-- Open against Seal.
use repani.Base.{
  ℕ, suc, drop-drop, ◌+◌, ◌%◌, ◌^◌, ◌≤◌, ◌<◌, ◌≡◌, refl, sym, ap, ◌∙◌, [], ◌∷◌, ◌++◌, append_assoc,
  append-nil, length, drop, All, All-append, length-append, take-append, drop-append, write_at,
  write_at-append, Bytes, IsByte, put_le, get_le, length-put_le, put_le-IsByte, get_le-put_le, ok,
  some, arith, ◌↔◌,
}
use repani.Kv.Vault.Sizes.{nonce_size}
use repani.Kv.Vault.Aead.{Aead}
use repani.Kv.Vault.Entry.{Entry, IsStorable, header, put_header}
use repani.Kv.Vault.Plaintext.{plaintext, seal_header, seal, split_plaintext, open_entry}

-- Open's split of a length byte, a key, a two-byte length and a value.
split_fields :
    (k v : ℕ) (key n value : Bytes)
    → length key ≡ k
    → length n ≡ 2
    → get_le n ≡ v
    → length value ≡ v
    → split_plaintext (k ∷ (key ++ (n ++ value))) ≡ ok (key, value)
unfolding split_plaintext
split_fields k v key n value hk hn read hv =
    let at_n : drop (1 + k) (k ∷ (key ++ (n ++ value))) ≡ n ++ value =
      rw (let e : 1 + k ≡ suc k = omega arith in e) (drop-append k key (n ++ value) hk) in
    let at_value : drop (1 + k + 2) (k ∷ (key ++ (n ++ value))) ≡ value =
      sym (drop-drop 2 (1 + k) (1 + k + 2) (k ∷ (key ++ (n ++ value))) refl)
      ∙ rw at_n (drop-append 2 n value hn) in
    let total : length (key ++ (n ++ value)) ≡ k + 2 + v =
      omega (arith, length-append key (n ++ value), length-append n value) in
    rw (at_n, at_value, take-append 2 n value hn, read, total, take-append k key (n ++ value) hk)
      (ground arith)

module _ (key value : Bytes) where
  abbrev plaintext_fields : Bytes
  plaintext_fields = length key % 2 ^ 8 ∷ (key ++ (put_le 2 (length value % 2 ^ 16) ++ value))

  plaintext-fields : plaintext key value ≡ plaintext_fields
  unfolding plaintext
  plaintext-fields =
      let k = length key in
      let v = length value in
      let n = k % 2 ^ 8 ∷ [] in
      let vl = put_le 2 (v % 2 ^ 16) in
      let vl2 : length vl ≡ 2 = length-put_le 2 (v % 2 ^ 16) in
      let nk : length (n ++ key) ≡ 1 + k = omega arith in
      let nkv : length ((n ++ key) ++ vl) ≡ 1 + k + 2 =
        omega (arith, length-append (n ++ key) vl) in
      ap (λ b. write_at (1 + k + 2) value (write_at (1 + k) vl (write_at 1 key b)))
        (write_at-append 0 (1 + k + 2 + v) (k + 2 + v) 0 [] n refl (omega arith))
      ∙ ap (λ b. write_at (1 + k + 2) value (write_at (1 + k) vl b))
          (write_at-append 1 (k + 2 + v) (2 + v) 0 n key refl (omega arith))
      ∙ ap (λ b. write_at (1 + k + 2) value b)
          (write_at-append (1 + k) (2 + v) v 0 (n ++ key) vl nk (omega arith))
      ∙ write_at-append (1 + k + 2) v 0 0 ((n ++ key) ++ vl) value nkv (omega arith)
      ∙ append-nil _
      ∙ append_assoc (n ++ key) vl value

  length-plaintext : length (plaintext key value) ≡ 3 + length key + length value
  length-plaintext = omega (
    arith,
    ap length plaintext-fields,
    length-append key (put_le 2 (length value % 2 ^ 16) ++ value),
    length-append (put_le 2 (length value % 2 ^ 16)) value,
    length-put_le 2 (length value % 2 ^ 16),
  )

  plaintext-IsByte : All IsByte key → All IsByte value → All IsByte (plaintext key value)
  plaintext-IsByte hk hv =
      rw plaintext-fields
        (omega arith, All-append IsByte key _ hk (All-append IsByte _ value (put_le-IsByte 2 _) hv))

  -- Open's split of the plaintext that Seal builds.
  split-plaintext :
      length key ≤ 255
      → length value ≤ 65535
      → split_plaintext (plaintext key value) ≡ ok (key, value)
  split-plaintext hk hv =
      let k_mod : length key % 2 ^ 8 ≡ length key = omega arith in
      let v_mod : length value % 2 ^ 16 ≡ length value = omega arith in
      rw (plaintext-fields, k_mod, v_mod)
        (split_fields (length key) (length value) key (put_le 2 (length value)) value refl
          (length-put_le 2 (length value)) (get_le-put_le 2 (length value) (omega arith)) refl)

-- The header that Seal authenticates is the one that Open authenticates.
seal_header-header : (e : Entry) → seal_header e.ts_ms e.nonce (length e.ct) ≡ header e
unfolding seal_header header put_header
seal_header-header e = refl

-- The entry that Seal returns, and what an accepted Seal says of its arguments.
module _ (aead : Aead) (nonce : Bytes) (ts_ms : ℕ) (key value : Bytes) where
  abbrev sealed : Entry
  sealed = record {
    ts_ms = ts_ms;
    nonce = nonce;
    ct =
        aead.seal nonce (plaintext key value)
          (seal_header ts_ms nonce (length (plaintext key value) + 16));
  }

  seal_inv :
      (e : Entry)
      → seal aead (some nonce) ts_ms key value ≡ ok e
      → (1 ≤ length key)
        × (length key ≤ 255)
        × (length value ≤ 65535)
        × (length key + length value + 45 ≤ 65536)
        × (sealed ≡ e)
  unfolding seal
  seal_inv e h = ground (arith, length-plaintext key value)

  -- The length of the ciphertext is the one that was authenticated.
  length-sealed : length sealed.ct ≡ length (plaintext key value) + 16
  length-sealed = aead.length-seal nonce _ _

  open_sealed_entry :
      length key ≤ 255
      → length value ≤ 65535
      → All IsByte key
      → All IsByte value
      → open_entry aead sealed ≡ ok (key, value)
  unfolding open_entry
  open_sealed_entry k255 v16 hk hv =
      let ad : header sealed ≡ seal_header ts_ms nonce (length (plaintext key value) + 16) =
        sym (seal_header-header sealed) ∙ ap (λ n. seal_header ts_ms nonce n) length-sealed in
      rw
        (
          ad,
          open_entry,
          aead.open-seal nonce (plaintext key value) _ (plaintext-IsByte key value hk hv),
          open_entry,
        )
        (split-plaintext key value k255 v16)

  sealed-IsStorable :
      ts_ms < 2 ^ 64
      → length nonce ≡ nonce_size
      → All IsByte nonce
      → All IsByte key
      → All IsByte value
      → length key + length value + 45 ≤ 65536
      → IsStorable sealed
  sealed-IsStorable ts n16 hn hk hv max = record {
    typed = record {
      ts_fits = ts;
      nonce_length = n16;
      nonce_bytes = hn;
      ct_bytes = aead.seal-IsByte nonce _ _ (plaintext-IsByte key value hk hv);
    };
    has_tag = omega (arith, length-sealed);
    fits = omega (arith, length-sealed, length-plaintext key value);
  }

-- Open of what Seal made returns the key and the value, and the entry is one that UnmarshalEntry
-- accepts, with the timestamp and the nonce that it was sealed with, when ts_ms is a uint64 and
-- the key, the value and the nonce are bytes, the nonce 16 of them.
pub open_entry-seal :
    (aead : Aead) (nonce : Bytes) (ts_ms : ℕ) (key value : Bytes) (e : Entry)
    → ts_ms < 2 ^ 64
    → length nonce ≡ nonce_size
    → All IsByte nonce
    → All IsByte key
    → All IsByte value
    → seal aead (some nonce) ts_ms key value ≡ ok e
    → (open_entry aead e ≡ ok (key, value)) × IsStorable e × (e.ts_ms ≡ ts_ms) × (e.nonce ≡ nonce)
open_entry-seal aead nonce ts_ms key value e ts n16 hn hk hv h =
    let (_, k255, v16, max, is_e) = seal_inv aead nonce ts_ms key value e h in
    rw (← is_e) (
      open_sealed_entry aead nonce ts_ms key value k255 v16 hk hv,
      sealed-IsStorable aead nonce ts_ms key value ts n16 hn hk hv max,
      refl,
      refl,
    )

-- With a nonce at hand, Seal succeeds exactly when the key has 1 to 255 bytes, the value at most
-- 65535, and the whole entry at most 64 KiB.
pub seal_iff :
    (aead : Aead) (nonce : Bytes) (ts_ms : ℕ) (key value : Bytes)
    → ((e : Entry) × (seal aead (some nonce) ts_ms key value ≡ ok e)) ↔ (
        (1 ≤ length key)
        × (length key ≤ 255)
        × (length value ≤ 65535)
        × (length key + length value + 45 ≤ 65536))
unfolding seal
seal_iff aead nonce ts_ms key value = (
  λ (e, h).
      let (k1, k255, v16, max, _) = seal_inv aead nonce ts_ms key value e h in (k1, k255, v16, max),
  λ (k1, k255, v16, max).
      (sealed aead nonce ts_ms key value, ground (arith, length-plaintext key value)),
)
