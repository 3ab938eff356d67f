-- ===== src/Kv/Store/LogStore/Records.antt =====
-- The bytes of a log: one length-prefixed record for each entry, as Add lays them out.
use repani.Base.{
  ℕ, ◌+◌, ◌%◌, ◌^◌, ◌≡◌, refl, sym, ap, ◌∙◌, List, [], ◌∷◌, ◌++◌, append_assoc, length, take, drop,
  replicate, All, length-append, take-append, drop-append, write_at, write_at-append, Bytes, put_le,
  length-put_le, arith,
}
use repani.Kv.Vault.Entry.{Entry, IsStorable, size, marshal, marshal_to}
use repani.Kv.Vault.Entry.Layout.{marshal_to-append, marshal-append, length-marshal}
use repani.Kv.Store.LogStore.{put_records}

-- | rec_len (4 bytes LE) | entry_bytes |
abbrev pub log_record : Entry → Bytes
log_record e = put_le 4 (size e % 2 ^ 32) ++ marshal e

abbrev pub log_records : List Entry → Bytes
log_records [] = []
log_records (e ∷ es) = log_record e ++ log_records es

abbrev pub records_size : List Entry → ℕ
records_size [] = 0
records_size (e ∷ es) = 4 + size e + records_size es

pub length-log_record : (e : Entry) → IsStorable e → length (log_record e) ≡ 4 + size e
length-log_record e v = omega (
  arith,
  length-append (put_le 4 (size e % 2 ^ 32)) (marshal e),
  length-put_le 4 (size e % 2 ^ 32),
  length-marshal e v.typed,
)

pub length-log_records :
    (es : List Entry) → All IsStorable es → length (log_records es) ≡ records_size es
length-log_records [] v = refl
length-log_records (e ∷ es) (v, vs) = omega (
  arith,
  length-append (log_record e) (log_records es),
  length-log_record e v,
  length-log_records es vs,
)

pub log_records-append :
    (es fs : List Entry) → log_records (es ++ fs) ≡ log_records es ++ log_records fs
log_records-append [] fs = refl
log_records-append (e ∷ es) fs =
    ap (λ t. log_record e ++ t) (log_records-append es fs)
    ∙ sym (append_assoc (log_record e) (log_records es) (log_records fs))

pub records_size-append :
    (es fs : List Entry) → records_size (es ++ fs) ≡ records_size es + records_size fs
records_size-append [] fs = ground arith
records_size-append (e ∷ es) fs = omega (arith, records_size-append es fs)

-- One round of Add's loop over a buffer whose first `pos` bytes are written.
put_record :
    (e : Entry) (pos k j : ℕ) (pre : Bytes)
    → IsStorable e
    → length pre ≡ pos
    → 4 + size e + j ≡ k
    → (let b1 = write_at pos (put_le 4 (size e % 2 ^ 32)) (pre ++ replicate k 0) in
        take (pos + 4) b1 ++ marshal_to e (drop (pos + 4) b1))
      ≡ (pre ++ log_record e) ++ replicate j 0
put_record e pos k j pre v hp hk =
    let n = put_le 4 (size e % 2 ^ 32) in
    let n4 : length n ≡ 4 = length-put_le 4 (size e % 2 ^ 32) in
    let ahead : length (pre ++ n) ≡ pos + 4 = omega (arith, length-append pre n) in
    rw
      (
        write_at-append pos k (size e + j) 0 pre n hp (omega arith),
        take-append (pos + 4) (pre ++ n) (replicate (size e + j) 0) ahead,
        drop-append (pos + 4) (pre ++ n) (replicate (size e + j) 0) ahead,
        marshal_to-append e (size e + j) j v.typed.nonce_length refl,
        ← marshal-append e v.typed.nonce_length,
      )
      (simp append_assoc)

pub put_records-append :
    (es : List Entry) (pos k : ℕ) (pre : Bytes)
    → All IsStorable es
    → length pre ≡ pos
    → records_size es ≡ k
    → put_records es pos (pre ++ replicate k 0) ≡ pre ++ log_records es
unfolding put_records
put_records-append [] pos k pre v hp hk = rw (← hk) refl
put_records-append (e ∷ es) pos k pre (v, vs) hp hk =
    ap (put_records es (pos + (4 + size e))) (put_record e pos k (records_size es) pre v hp hk)
    ∙ put_records-append es (pos + (4 + size e)) (records_size es) (pre ++ log_record e) vs
        (omega (arith, length-append pre (log_record e), length-log_record e v)) refl
    ∙ append_assoc pre (log_record e) (log_records es)
