-- ===== src/Kv/Store/LogStore/Recovery.antt =====
-- Reopening a log that was cut anywhere behind its magic: replay brings back the entries whose records
-- are whole, and truncates the rest away.
use repani.Base.{
  ℕ, zero, suc, ◌+◌, ◌-◌, ◌%◌, ◌^◌, ◌≡◌, ◌≤◌, ◌<◌, ◌⊎◌, inl, inr, refl, sym, ap, ◌∙◌, List, [], ◌∷◌,
  ◌++◌, append_assoc, append-nil, length, take, drop, All, length-append, length-take, length-drop,
  take-append, drop-append, take-append_past, Bytes, put_le, get_le, length-put_le, get_le-put_le,
  ltb, ltb→lt, leb, ◌==◌, if◌then◌else◌, Bool-cases, Option, none, some, arith, tests,
}
use repani.Kv.Vault.Entry.{Entry, IsStorable, size, marshal, unmarshal_entry}
use repani.Kv.Vault.Entry.Layout.{length-marshal}
use repani.Kv.Vault.Entry.RoundTrip.{unmarshal_entry-marshal}
use repani.Kv.Store.MemStore.{MemStore, add as mem_add}
use repani.Kv.Store.LogStore.{replay_loop, read_record, Found, at_end, torn_tail, record_of}
use repani.Kv.Store.LogStore.Records.{log_record, log_records, records_size, length-log_record}

-- The entries whose records lie whole within the first `n` bytes.
unfoldable pub whole_within : ℕ → List Entry → List Entry
whole_within n [] = []
whole_within n (e ∷ es) = if leb (4 + size e) n then e ∷ whole_within (n - (4 + size e)) es else []

size_bounds : (e : Entry) → IsStorable e → (42 ≤ size e) × (size e ≤ 65536)
unfolding size
size_bounds e v = (omega (arith, v.has_tag), omega (arith, v.fits))

read_len : (e : Entry) → IsStorable e → get_le (put_le 4 (size e % 2 ^ 32)) ≡ size e
read_len e v =
    let (_, hi) = size_bounds e v in
    let m : size e % 2 ^ 32 ≡ size e = omega arith in
    get_le-put_le 4 (size e % 2 ^ 32) (omega arith) ∙ m

-- A whole record is read.
read_record_whole :
    (e : Entry) (tail : Bytes)
    → IsStorable e
    → read_record (log_record e ++ tail) ≡ record_of e (size e)
unfolding read_record
read_record_whole e tail v =
    let n = put_le 4 (size e % 2 ^ 32) in
    let n4 : length n ≡ 4 = length-put_le 4 (size e % 2 ^ 32) in
    let (lo, hi) = size_bounds e v in
    let sz : length (marshal e) ≡ size e = length-marshal e v.typed in
    let all : (n ++ marshal e) ++ tail ≡ n ++ (marshal e ++ tail) =
      append_assoc n (marshal e) tail in
    let total : length (n ++ (marshal e ++ tail)) ≡ 4 + (size e + length tail) =
      omega (arith, length-append n (marshal e ++ tail), length-append (marshal e) tail) in
    rw
      (
        all,
        total,
        take-append 4 n (marshal e ++ tail) n4,
        drop-append 4 n (marshal e ++ tail) n4,
        read_len e v,
        take-append (size e) (marshal e) tail sz,
        length-append (marshal e) tail,
        sz,
        ap unmarshal_entry (sym (append-nil (marshal e))) ∙ unmarshal_entry-marshal e [] v,
      )
      (ground arith)

-- A record cut short is a torn tail, unless nothing of it is left.
read_record_cut :
    (e : Entry) (more : Bytes) (n : ℕ)
    → IsStorable e
    → n < 4 + size e
    → read_record (take n (log_record e ++ more)) ≡ (if n == 0 then at_end else torn_tail)
unfolding read_record
read_record_cut e more n v h =
    let b = take n (log_record e ++ more) in
    let n_len : length b ≡ n = omega (
      arith,
      length-take n (log_record e ++ more),
      length-append (log_record e) more,
      length-log_record e v,
    ) in
    elim (Bool-cases (ltb n 4)) [
      | inl short ↦ rw n_len (ground arith)
      | inr some_len ↦
          let l = put_le 4 (size e % 2 ^ 32) in
          let l4 : length l ≡ 4 = length-put_le 4 (size e % 2 ^ 32) in
          let four : take 4 b ≡ l =
            ap (take 4) (
              ap (take n) (append_assoc l (marshal e) more)
              ∙ take-append_past n (n - 4) l (marshal e ++ more) (omega tests))
            ∙ take-append 4 l (take (n - 4) (marshal e ++ more)) l4 in
          rw (n_len, four, read_len e v, length-drop 4 b, n_len) (ground (arith, size_bounds e v))
    ]

pub within_whole :
    (n : ℕ) (e : Entry) (es : List Entry)
    → 4 + size e ≤ n
    → whole_within n (e ∷ es) ≡ e ∷ whole_within (n - (4 + size e)) es
unfolding whole_within
within_whole n e es h = ground arith

pub within_cut :
    (n : ℕ) (e : Entry) (es : List Entry) → n < 4 + size e → whole_within n (e ∷ es) ≡ []
unfolding whole_within
within_cut n e es h = ground arith

-- The memory store after adding entries one call at a time.
abbrev pub mem_of : (Bytes → Bytes → Bytes) → List Entry → MemStore → MemStore
mem_of cxof [] m = m
mem_of cxof (e ∷ es) m = mem_of cxof es (mem_add cxof (e ∷ []) m).0

module _ (cxof : Bytes → Bytes → Bytes) where
  -- What replay makes of the first `n` bytes of some records.
  pub record Replayed (n : ℕ) (es : List Entry) (off : ℕ) (m : MemStore) (r : MemStore × Option ℕ)
      : Type 0 where
    pub mem : r.0 ≡ mem_of cxof (whole_within n es) m
    pub ends :
        (r.1 ≡ some (off + records_size (whole_within n es)))
        ⊎ ((r.1 ≡ none) × (n ≡ records_size (whole_within n es)))

  replay_nothing :
      (fuel off : ℕ) (m : MemStore) → 0 < fuel → replay_loop cxof fuel [] off m ≡ (m, none)
  unfolding replay_loop read_record
  replay_nothing zero off m h = absurd (omega arith)
  replay_nothing (suc fuel) off m h = refl

  -- One round at what it found.
  round : Found → ℕ → Bytes → ℕ → MemStore → MemStore × Option ℕ
  round at_end fuel rest off m = (m, none)
  round torn_tail fuel rest off m = (m, some off)
  round (record_of e rec_len) fuel rest off m =
      replay_loop cxof fuel (drop (4 + rec_len) rest) (off + (4 + rec_len))
        (mem_add cxof (e ∷ []) m).0

  replay_loop-round :
      (fuel : ℕ) (rest : Bytes) (off : ℕ) (m : MemStore)
      → replay_loop cxof (suc fuel) rest off m ≡ round (read_record rest) fuel rest off m
  unfolding replay_loop round
  replay_loop-round fuel rest off m = ground arith

  step_whole :
      (fuel : ℕ) (e : Entry) (rest : Bytes) (n k off : ℕ) (m : MemStore)
      → IsStorable e
      → 4 + size e + k ≡ n
      → replay_loop cxof (suc fuel) (take n (log_record e ++ rest)) off m
        ≡ replay_loop cxof fuel (take k rest) (off + (4 + size e)) (mem_add cxof (e ∷ []) m).0
  step_whole fuel e rest n k off m v h =
      let len = length-log_record e v in
      let tail = take k rest in
      ap (λ b. replay_loop cxof (suc fuel) b off m)
        (take-append_past n k (log_record e) rest (omega arith))
      ∙ replay_loop-round fuel (log_record e ++ tail) off m
      ∙ ap (λ f. round f fuel (log_record e ++ tail) off m) (read_record_whole e tail v)
      ∙ unfold round in
        ap (λ b. replay_loop cxof fuel b (off + (4 + size e)) (mem_add cxof (e ∷ []) m).0)
          (drop-append (4 + size e) (log_record e) tail len)

  step_cut :
      (fuel : ℕ) (e : Entry) (rest : Bytes) (n off : ℕ) (m : MemStore)
      → IsStorable e
      → n < 4 + size e
      → replay_loop cxof (suc fuel) (take n (log_record e ++ rest)) off m
        ≡ (if n == 0 then (m, none) else (m, some off))
  unfolding round
  step_cut fuel e rest n off m v h =
      replay_loop-round fuel (take n (log_record e ++ rest)) off m
      ∙ rw (read_record_cut e rest n v h) (ground arith)

  -- A record cut short ends the replay with what is there.
  Replayed-cut :
      (n : ℕ) (e : Entry) (es : List Entry) (off : ℕ) (m : MemStore)
      → n < 4 + size e
      → Replayed n (e ∷ es) off m (if n == 0 then (m, none) else (m, some off))
  Replayed-cut n e es off m h =
      let none_whole = within_cut n e es h in
      elim (Bool-cases (n == 0)) [
        | inl z ↦
            rw z
              (record { mem = rw none_whole refl; ends = inr (refl, rw none_whole (ground arith)) })
        | inr nz ↦ rw nz (record {
          mem = rw none_whole refl;
          ends = inl (rw none_whole (ap some (omega arith)));
        })
      ]

  Replayed-whole :
      (n k : ℕ) (e : Entry) (es : List Entry) (off : ℕ) (m : MemStore) (r : MemStore × Option ℕ)
      → 4 + size e + k ≡ n
      → Replayed k es (off + (4 + size e)) (mem_add cxof (e ∷ []) m).0 r
      → Replayed n (e ∷ es) off m r
  Replayed-whole n k e es off m r h p =
      let split : whole_within n (e ∷ es) ≡ e ∷ whole_within k es =
        within_whole n e es (omega arith)
        ∙ ap (λ i. e ∷ whole_within i es) (let i : n - (4 + size e) ≡ k = omega arith in i) in
      let grown : off + (4 + size e) + records_size (whole_within k es)
          ≡ off + records_size (whole_within n (e ∷ es)) =
        omega (arith, ap records_size split) in
      record {
        mem = p.mem ∙ ap (λ t. mem_of cxof t m) (sym split);
        ends = elim p.ends [
          | inl cut ↦ inl (cut ∙ ap some grown)
          | inr (all, size) ↦ inr (all, omega (arith, ap records_size split))
        ];
      }

  pub replay_loop-cut :
      (es : List Entry) (n fuel off : ℕ) (m : MemStore)
      → All IsStorable es
      → n ≤ records_size es
      → n < fuel
      → Replayed n es off m (replay_loop cxof fuel (take n (log_records es)) off m)
  replay_loop-cut [] zero fuel off m v hn hf =
      let r = replay_nothing fuel off m hf in
      record {
        mem = unfold whole_within in ap (λ r. r.0) r;
        ends = inr (ap (λ r. r.1) r, unfold whole_within in refl);
      }
  replay_loop-cut [] (suc n) fuel off m v hn hf = absurd (omega arith)
  replay_loop-cut (e ∷ es) n zero off m v hn hf = absurd (omega arith)
  replay_loop-cut (e ∷ es) n (suc fuel) off m (v, vs) hn hf =
      elim (Bool-cases (ltb n (4 + size e))) [
        | inl cut ↦
            rw (step_cut fuel e (log_records es) n off m v (ltb→lt n (4 + size e) cut))
              (Replayed-cut n e es off m (ltb→lt n (4 + size e) cut))
        | inr whole ↦
            let k = n - (4 + size e) in
            let h : 4 + size e + k ≡ n = omega tests in
            rw (step_whole fuel e (log_records es) n k off m v h) (
              Replayed-whole n k e es off m _ h (
                replay_loop-cut es k fuel (off + (4 + size e)) (mem_add cxof (e ∷ []) m).0 vs
                  (omega arith) (omega arith)))
      ]
