-- ===== src/Kv/Store/LogStore/Reopen.antt =====
-- OpenLogStore on a log that was cut anywhere behind its magic, by a crash or a torn write.
use repani.Base.{
  ℕ, suc, ◌+◌, ◌-◌, ◌≡◌, ◌≤◌, inl, inr, refl, sym, ap, ◌∙◌, List, [], ◌∷◌, ◌++◌, length, take, All,
  length-take, take-append, take-append_past, take-take, take_all, Bytes, ltb, ltb→lt, Bool-cases,
  some, ok, arith, tests, compare_bytes,
}
use repani.Kv.Vault.Entry.{Entry, IsStorable, size}
use repani.Kv.Store.MemStore.{new_mem_store}
use repani.Kv.Store.LogStore.{LogStore, log_magic, replay, open_log}
use repani.Kv.Store.LogStore.Records.{
  log_records, records_size, length-log_records, log_records-append,
}
use repani.Kv.Store.LogStore.Recovery.{
  whole_within, within_whole, within_cut, mem_of, replay_loop-cut,
}

-- The whole entries are a prefix, and their records take at most `n` bytes.
pub record IsFront (n : ℕ) (es : List Entry) (front : List Entry) : Type 0 where
  pub rest : List Entry
  pub split : front ++ rest ≡ es
  pub fits : records_size front ≤ n
  pub storable : All IsStorable front

pub whole_within-IsFront :
    (n : ℕ) (es : List Entry) → All IsStorable es → IsFront n es (whole_within n es)
unfolding whole_within
whole_within-IsFront n [] v = record { rest = []; split = refl; fits = omega arith; storable = tt }
whole_within-IsFront n (e ∷ es) (v, vs) = elim (Bool-cases (ltb n (4 + size e))) [
  | inl cut ↦
      rw (within_cut n e es (ltb→lt n (4 + size e) cut))
        (record { rest = e ∷ es; split = refl; fits = omega arith; storable = tt })
  | inr whole ↦
      let ih = whole_within-IsFront (n - (4 + size e)) es vs in
      rw (within_whole n e es (omega tests)) (record {
        rest = ih.rest;
        split = ap (λ t. e ∷ t) ih.split;
        fits = omega (tests, ih.fits);
        storable = (v, ih.storable);
      })
]

take_whole :
    (n : ℕ) (es : List Entry)
    → All IsStorable es
    → take (records_size (whole_within n es)) (take n (log_records es))
      ≡ log_records (whole_within n es)
take_whole n es v =
    let w = whole_within-IsFront n es v in
    let front = whole_within n es in
    take-take (records_size front) n (log_records es) w.fits
    ∙ ap (λ fs. take (records_size front) (log_records fs)) (sym w.split)
    ∙ ap (take (records_size front)) (log_records-append front w.rest)
    ∙ take-append (records_size front) (log_records front) (log_records w.rest)
        (length-log_records front w.storable)

-- The store that reopening gives: the entries in memory, and the log with their records.
abbrev pub recovered : (Bytes → Bytes → Bytes) → List Entry → LogStore
recovered cxof es = record {
  mem = mem_of cxof es new_mem_store;
  file = some (record { content = log_magic ++ log_records es; pos = 8 + records_size es });
}

module _ (cxof : Bytes → Bytes → Bytes) (es : List Entry) (n : ℕ) (v : All IsStorable es)
    (hn : n ≤ records_size es) where
  abbrev cut_log : Bytes
  cut_log = log_magic ++ take n (log_records es)

  length-cut_log : length cut_log ≡ 8 + n
  length-cut_log = omega (arith, length-take n (log_records es), length-log_records es v)

  abbrev recovered_as : Bytes → ℕ → LogStore
  recovered_as content pos = record {
    mem = mem_of cxof (whole_within n es) new_mem_store;
    file = some (record { content = content; pos = pos });
  }

  replay_cut : replay cxof cut_log ≡ recovered cxof (whole_within n es)
  unfolding replay
  replay_cut =
      let front = whole_within n es in
      let p =
        replay_loop-cut cxof es n (suc (length cut_log)) 8 new_mem_store v hn
          (omega (arith, length-cut_log)) in
      elim p.ends [
        | inl cut ↦
            rw (p.mem, cut)
              (ap (λ (t : Bytes). recovered_as t (8 + records_size front))
                (take-append_past (8 + records_size front) (records_size front) log_magic
                    (take n (log_records es)) refl
                  ∙ ap (λ t. log_magic ++ t) (take_whole n es v)))
        | inr (all, size) ↦
            let is_front : take n (log_records es) ≡ log_records front =
              sym (
                take_all (records_size front) (take n (log_records es))
                  (omega (arith, length-cut_log)))
              ∙ take_whole n es v in
            rw (p.mem, all)
              (ap (λ p. recovered_as cut_log p) (length-cut_log ∙ ap (λ k. 8 + k) size)
                ∙ ap (λ t. recovered_as (log_magic ++ t) (8 + records_size front)) is_front)
      ]

  -- A log holding the records of storable entries, cut after any number of bytes behind its magic,
  -- reopens without an error: the memory has the entries whose records are whole, in their order, and
  -- the file has exactly their records, so a torn tail is gone and no committed record is lost.
  pub open_log-cut : open_log cxof cut_log ≡ ok (recovered cxof (whole_within n es))
  unfolding open_log compare_bytes
  open_log-cut = rw (length-cut_log, replay_cut) (ground arith)
