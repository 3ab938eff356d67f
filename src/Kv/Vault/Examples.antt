-- ===== src/Kv/Vault/Examples.antt =====
-- Entries sealed, marshalled and read back: runs of kv/vault's code on concrete values.
use repani.Base.{
  ◌+◌, ◌≡◌, ◌≤◌, refl, ◌↔◌, [], ◌∷◌, ◌++◌, All, length, replicate, Bytes, IsByte, drop, get_le,
  put_le, ok, err, some, arith,
}
use repani.Kv.Samples.{replicate-IsByte, plain_aead, first_entry, first_entry-IsStorable}
use repani.Kv.Vault.Entry.{
  Entry, entry_short, entry_corrupt, size, marshal, unmarshal_entry, IsStorable,
}
use repani.Kv.Vault.Entry.RoundTrip.{unmarshal_entry-marshal, marshal-unmarshal_entry}
use repani.Kv.Vault.Plaintext.{empty_key, seal, open_entry}
use repani.Kv.Vault.Plaintext.RoundTrip.{open_entry-seal, seal_iff}

-- A short slice and a ciphertext without a tag are refused.
unmarshal_short : unmarshal_entry (replicate 25 0) ≡ err entry_short
unfolding unmarshal_entry get_le
unmarshal_short = refl

unmarshal_no_tag : unmarshal_entry (replicate 26 0) ≡ err entry_corrupt
unfolding unmarshal_entry get_le
unmarshal_no_tag = refl

seal_empty_key : seal plain_aead (some (replicate 16 1)) 5 [] (1 ∷ []) ≡ err empty_key
unfolding seal
seal_empty_key = refl

unmarshal_entry-marshal_example :
    unmarshal_entry (marshal first_entry ++ 7 ∷ []) ≡ ok (first_entry, size first_entry)
unmarshal_entry-marshal_example =
    unmarshal_entry-marshal first_entry (7 ∷ []) first_entry-IsStorable

-- An entry as it comes over the wire, with a byte behind it.
abbrev received : Bytes
received = (5 ∷ replicate 7 0) ++ (replicate 16 1 ++ ((16 ∷ 0 ∷ []) ++ (replicate 16 2 ++ 7 ∷ [])))

unmarshal_received : unmarshal_entry received ≡ ok (first_entry, 42)
unfolding unmarshal_entry get_le
unmarshal_received = refl

received-IsByte : All IsByte received
received-IsByte = ground arith

marshal-unmarshal_entry_example :
    IsStorable first_entry
    × (42 ≡ size first_entry)
    × (42 ≤ length received)
    × (marshal first_entry ++ drop 42 received ≡ received)
marshal-unmarshal_entry_example =
    marshal-unmarshal_entry received first_entry 42 received-IsByte unmarshal_received

abbrev sealed_entry : Entry
sealed_entry = record {
  ts_ms = 5;
  nonce = replicate 16 1;
  ct = (1 ∷ 65 ∷ 2 ∷ 0 ∷ 66 ∷ 67 ∷ []) ++ replicate 16 0;
}

seal_runs : seal plain_aead (some (replicate 16 1)) 5 (65 ∷ []) (66 ∷ 67 ∷ []) ≡ ok sealed_entry
unfolding seal put_le
seal_runs = refl

open_entry-seal_example :
    (open_entry plain_aead sealed_entry ≡ ok (65 ∷ [], 66 ∷ 67 ∷ []))
    × IsStorable sealed_entry
    × (sealed_entry.ts_ms ≡ 5)
    × (sealed_entry.nonce ≡ replicate 16 1)
open_entry-seal_example =
    open_entry-seal plain_aead (replicate 16 1) 5 (65 ∷ []) (66 ∷ 67 ∷ []) sealed_entry
      (omega arith) refl (replicate-IsByte 16 1 (omega arith)) (ground arith) (ground arith)
      seal_runs

seal_iff_example :
    ((e : Entry) × (seal plain_aead (some (replicate 16 1)) 5 (65 ∷ []) (66 ∷ 67 ∷ []) ≡ ok e))
    ↔ ((1 ≤ 1) × (1 ≤ 255) × (2 ≤ 65535) × (1 + 2 + 45 ≤ 65536))
seal_iff_example = seal_iff plain_aead (replicate 16 1) 5 (65 ∷ []) (66 ∷ 67 ∷ [])
