-- ===== src/Kv/Wire/Entries/RoundTrip.antt =====
-- parseEntries against appendEntries, both ways.
use repani.Base.{
  ℕ, zero, suc, ◌+◌, ◌%◌, ◌^◌, ◌≤◌, ◌<◌, ◌≡◌, refl, sym, ap, ◌∙◌, List, [], ◌∷◌, ◌++◌, append_assoc,
  append-nil, length, take, drop, All, All-take, All-drop, length-append, length-take, length-drop,
  take-append, drop-append, drop-drop, drop_all, take-append-drop, Bytes, IsByte, put_le, get_le,
  length-put_le, get_le-put_le, put_le-get_le, get_le-lt, ok, Result-cases, inl, inr, arith,
}
use repani.Kv.Vault.Entry.{Entry, IsStorable, size, marshal, unmarshal_entry}
use repani.Kv.Vault.Entry.Layout.{length-marshal}
use repani.Kv.Vault.Entry.RoundTrip.{unmarshal_entry-marshal, marshal-unmarshal_entry}
use repani.Kv.Wire.Entries.{append_marshals, append_entries, parse_loop, parse_entries}

abbrev pub marshals : List Entry → Bytes
marshals [] = []
marshals (e ∷ es) = marshal e ++ marshals es

append_marshals-marshals :
    (dst : Bytes) (es : List Entry) → append_marshals dst es ≡ dst ++ marshals es
unfolding append_marshals
append_marshals-marshals dst [] = sym (append-nil dst)
append_marshals-marshals dst (e ∷ es) =
    append_marshals-marshals (dst ++ marshal e) es ∙ append_assoc dst (marshal e) (marshals es)

pub append_entries-marshals :
    (dst : Bytes) (es : List Entry)
    → append_entries dst es ≡ dst ++ (put_le 4 (length es % 2 ^ 32) ++ marshals es)
unfolding append_entries
append_entries-marshals dst es =
    append_marshals-marshals (dst ++ put_le 4 (length es % 2 ^ 32)) es
    ∙ append_assoc dst (put_le 4 (length es % 2 ^ 32)) (marshals es)

parse_loop-marshals :
    (es : List Entry) (b rest : Bytes) (off n : ℕ) (out : List Entry)
    → All IsStorable es
    → drop off b ≡ marshals es ++ rest
    → length es ≡ n
    → parse_loop n b off out ≡ ok (out ++ es, off + length (marshals es))
unfolding parse_loop
parse_loop-marshals [] b rest off zero out v d h =
    rw (append-nil out) (ap (λ k. ok (out, k)) (let e : off ≡ off + 0 = omega arith in e))
parse_loop-marshals [] b rest off (suc n) out v d h = absurd (omega arith)
parse_loop-marshals (e ∷ es) b rest off zero out v d h = absurd (omega arith)
parse_loop-marshals (e ∷ es) b rest off (suc n) out (v, vs) d h =
    let sz : length (marshal e) ≡ size e = length-marshal e v.typed in
    let d' : drop off b ≡ marshal e ++ (marshals es ++ rest) =
      d ∙ append_assoc (marshal e) (marshals es) rest in
    let next : drop (off + size e) b ≡ marshals es ++ rest =
      sym (drop-drop (size e) off (off + size e) b refl)
      ∙ rw d' (drop-append (size e) (marshal e) (marshals es ++ rest) sz) in
    rw (d', unmarshal_entry-marshal e (marshals es ++ rest) v)
      (parse_loop-marshals es b rest (off + size e) n (out ++ e ∷ []) vs next (omega arith)
        ∙ ground (arith, append_assoc out (e ∷ []) es, length-append (marshal e) (marshals es)))

-- parseEntries reads back any list of fewer than 2^32 storable entries from what appendEntries wrote.
pub parse_entries-append_entries :
    (es : List Entry)
    → All IsStorable es
    → length es < 2 ^ 32
    → parse_entries (append_entries [] es) ≡ ok es
unfolding parse_entries
parse_entries-append_entries es v h =
    let n = put_le 4 (length es % 2 ^ 32) in
    let n4 : length n ≡ 4 = length-put_le 4 (length es % 2 ^ 32) in
    let count : length es % 2 ^ 32 ≡ length es = omega arith in
    let read_n : get_le n ≡ length es =
      get_le-put_le 4 (length es % 2 ^ 32) (omega arith) ∙ count in
    rw
      (
        append_entries-marshals [] es,
        take-append 4 n (marshals es) n4,
        read_n,
        parse_loop-marshals es (n ++ marshals es) [] 4 (length es) [] v
            (drop-append 4 n (marshals es) n4 ∙ sym (append-nil (marshals es))) refl,
        length-append n (marshals es),
        n4,
      )
      (ground arith)

-- What a successful run of the loop read.
record LoopReads (b : Bytes) (off : ℕ) (out : List Entry) (n : ℕ) (out' : List Entry) (off' : ℕ)
    : Type 0 where
  es : List Entry
  storable : All IsStorable es
  count : length es ≡ n
  appended : out' ≡ out ++ es
  inside : off' ≤ length b
  bytes_read : drop off b ≡ marshals es ++ drop off' b

parse_loop_reads :
    (n : ℕ) (b : Bytes) (off : ℕ) (out out' : List Entry) (off' : ℕ)
    → All IsByte b
    → off ≤ length b
    → parse_loop n b off out ≡ ok (out', off')
    → LoopReads b off out n out' off'
unfolding parse_loop
parse_loop_reads zero b off out out' off' hb ho h = record {
  es = [];
  storable = tt;
  count = refl;
  appended = ground (arith, append-nil out);
  inside = ground arith;
  bytes_read = ground arith;
}
parse_loop_reads (suc n) b off out out' off' hb ho h =
    elim (Result-cases (unmarshal_entry (drop off b))) [
      | inr (x, e) ↦ absurd (ground arith)
      | inl ((e, k), r) ↦
          let (v, is_k, fits, whole) =
            marshal-unmarshal_entry (drop off b) e k (All-drop IsByte off b hb) r in
          let room : off + k ≤ length b = omega (arith, length-drop off b) in
          let h' : parse_loop n b (off + k) (out ++ e ∷ []) ≡ ok (out', off') = rw r at h in
          let ih = parse_loop_reads n b (off + k) (out ++ e ∷ []) out' off' hb room h' in
          record {
            es = e ∷ ih.es;
            storable = (v, ih.storable);
            count = omega (arith, ih.count);
            appended = ih.appended ∙ append_assoc out (e ∷ []) ih.es;
            inside = ih.inside;
            bytes_read =
                sym whole
                ∙ ap (λ t. marshal e ++ t) (drop-drop k off (off + k) b refl ∙ ih.bytes_read)
                ∙ sym (append_assoc (marshal e) (marshals ih.es) (drop off' b));
          }
    ]

-- What parseEntries accepts from a byte slice is exactly what appendEntries writes for the entries
-- that it returns: fewer than 2^32 of them, each storable, and no other encoding.
pub append_entries-parse_entries :
    (b : Bytes) (es : List Entry)
    → All IsByte b
    → parse_entries b ≡ ok es
    → All IsStorable es × (length es < 2 ^ 32) × (append_entries [] es ≡ b)
unfolding parse_entries
append_entries-parse_entries b es hb h =
    elim (Result-cases (parse_loop (get_le (take 4 b)) b 4 [])) [
      | inr (x, e) ↦ absurd (ground arith)
      | inl ((out, off), r) ↦
          let four : 4 ≤ length b = ground arith in
          let all : off ≡ length b = ground arith in
          let same : out ≡ es = ground arith in
          let lr = parse_loop_reads (get_le (take 4 b)) b 4 [] out off hb four r in
          let head4 : length (take 4 b) ≡ 4 = omega (arith, length-take 4 b) in
          let small : get_le (take 4 b) < 2 ^ 32 =
            get_le-lt 4 (take 4 b) (All-take IsByte 4 b hb) head4 in
          let is_es : es ≡ lr.es = sym same ∙ lr.appended in
          let n = lr.count in
          let body : marshals lr.es ≡ drop 4 b = sym (
            lr.bytes_read
            ∙ ap (λ t. marshals lr.es ++ t) (drop_all off b (omega arith))
            ∙ append-nil (marshals lr.es)) in
          let count : length lr.es % 2 ^ 32 ≡ get_le (take 4 b) = omega arith in
          rw is_es (
            lr.storable,
            omega arith,
            append_entries-marshals [] lr.es
                ∙ rw (count, put_le-get_le 4 (take 4 b) (All-take IsByte 4 b hb) head4, body)
                    (take-append-drop 4 b),
          )
    ]
