-- ===== src/Kv/Store/LogStore/Crash.antt =====
-- A log reopened: after a clean end, and after an Add that the system broke off.
use repani.Base.{
  ℕ, ◌+◌, ◌≡◌, ◌≤◌, refl, sym, ap, ◌∙◌, false, ◌==◌, List, [], ◌∷◌, ◌++◌, append_assoc, append-nil,
  map, Bytes, length, take, take_all, take-append_past, All, All-append, Bool-cases, inl, inr,
  Option, none, some, Result, ok, arith,
}
use repani.Kv.Vault.Entry.{Entry, IsStorable, size}
use repani.Kv.Store.Canonical.Unique.{add_all}
use repani.Kv.Store.MemStore.{MemStore, new_mem_store, add as mem_add}
use repani.Kv.Store.MemStore.Refines.{view, IsValid, new_mem_store-IsValid}
use repani.Kv.Store.MemStore.Adds.{keyed, IsCached, add-refines}
use repani.Kv.Store.LogStore.{
  LogStore, LogFile, LogError, torn, log_magic, rollback, add, commit, open_log,
}
use repani.Kv.Store.LogStore.Records.{
  log_records, records_size, length-log_records, log_records-append, records_size-append,
}
use repani.Kv.Store.LogStore.Recovery.{whole_within, within_whole, mem_of}
use repani.Kv.Store.LogStore.Reopen.{recovered, open_log-cut, whole_within-IsFront}
use repani.Kv.Store.LogStore.News.{new_of, new_of-storable}
use repani.Kv.Store.LogStore.Durable.{IsDurable, log_of, file_write_end}
use repani.Kv.Store.LogStore.Adds.{add-nothing, add-something, no_news}

within-append :
    (cs es : List Entry) (k : ℕ)
    → whole_within (records_size cs + k) (cs ++ es) ≡ cs ++ whole_within k es
within-append [] es k = ap (λ i. whole_within i es) (omega arith)
within-append (c ∷ cs) es k =
    within_whole (4 + size c + records_size cs + k) c (cs ++ es) (omega arith)
    ∙ ap (λ i. c ∷ whole_within i (cs ++ es)) (omega arith)
    ∙ ap (λ t. c ∷ t) (within-append cs es k)

abbrev content_of : Option LogFile → Bytes
content_of none = []
content_of (some f) = f.content

-- The bytes that stay when the process ends.
abbrev pub on_disk : LogStore → Bytes
on_disk ls = content_of ls.file

module _ (cxof : Bytes → Bytes → Bytes) where
  mem_of-view :
      (es : List Entry) (m : MemStore)
      → IsValid m
      → IsCached cxof m
      → (view (mem_of cxof es m) ≡ add_all (map (keyed cxof) es) (view m))
        × IsValid (mem_of cxof es m)
  mem_of-view [] m v c = (refl, v)
  mem_of-view (e ∷ es) m v c =
      let (viewed, v', c') = add-refines cxof (e ∷ []) m v c in
      let (ih, w) = mem_of-view es (mem_add cxof (e ∷ []) m).0 v' c' in
      (ih ∙ ap (add_all (map (keyed cxof) es)) viewed, w)

  pub new_mem_store-IsCached : IsCached cxof new_mem_store
  new_mem_store-IsCached h = absurd (cc)

  pub recovered-IsDurable :
      (es : List Entry) → All IsStorable es → IsDurable cxof es (recovered cxof es)
  recovered-IsDurable es v =
      let (viewed, w) = mem_of-view es new_mem_store new_mem_store-IsValid new_mem_store-IsCached in
      record { storable = v; logged = refl; viewed = viewed; valid = w }

  open_log-log_of :
      (es : List Entry)
      → All IsStorable es
      → open_log cxof (log_of es).content ≡ ok (recovered cxof es)
  unfolding whole_within
  open_log-log_of es v =
      let size : length (log_records es) ≡ records_size es = length-log_records es v in
      let all : whole_within (records_size es) es ≡ es =
        ap (λ i. whole_within i es) (omega arith)
        ∙ ap (λ t. whole_within (records_size es + 0) t) (sym (append-nil es))
        ∙ within-append es [] 0
        ∙ append-nil es in
      ap (λ (t : Bytes). open_log cxof (log_magic ++ t))
        (sym (take_all (records_size es) (log_records es) (omega (arith, size))))
      ∙ open_log-cut cxof es (records_size es) v (omega arith)
      ∙ ap (λ (t : List Entry). ok (recovered cxof t)) all

  -- The bytes on disk of a store in step with its log reopen without an error to a store that is in
  -- step with the same log and has the same canonical view.
  pub open_log-clean :
      (committed : List Entry) (ls : LogStore)
      → IsDurable cxof committed ls
      → (open_log cxof (on_disk ls) ≡ ok (recovered cxof committed))
        × IsDurable cxof committed (recovered cxof committed)
        × (view (recovered cxof committed).mem ≡ view ls.mem)
  open_log-clean committed ls d =
      let again = recovered-IsDurable committed d.storable in
      (
        ap (λ (g : Option LogFile). open_log cxof (content_of g)) d.logged
            ∙ open_log-log_of committed d.storable,
        again,
        again.viewed ∙ sym d.viewed,
      )

module _ (cxof : Bytes → Bytes → Bytes) (es committed : List Entry) (ls : LogStore) (k : ℕ)
    (v : All IsStorable es) (d : IsDurable cxof committed ls)
    (hk : k ≤ records_size (new_of cxof es ls.mem [])) where
  abbrev some_news : List Entry
  some_news = new_of cxof es ls.mem []

  -- The bytes that a broken write leaves.
  torn_log :
      (log_magic ++ log_records committed) ++ take k (log_records some_news)
      ≡ log_magic ++ take (records_size committed + k) (log_records (committed ++ some_news))
  torn_log =
      append_assoc log_magic (log_records committed) (take k (log_records some_news))
      ∙ ap (λ t. log_magic ++ t)
          (sym (
              take-append_past (records_size committed + k) k (log_records committed)
                (log_records some_news) (omega (arith, length-log_records committed d.storable)))
            ∙ ap (take (records_size committed + k)) (sym (log_records-append committed some_news)))

  on_disk-torn :
      on_disk (add cxof (torn k) false es ls).0
      ≡ log_magic ++ take (records_size committed + k) (log_records (committed ++ some_news))
  unfolding commit rollback
  on_disk-torn = elim (Bool-cases (length some_news == 0)) [
    | inl none_new ↦
        let nil : take k (log_records some_news) ≡ [] =
          ap (λ t. take k (log_records t)) (no_news cxof es committed ls v d none_new)
          ∙ take_all k [] (omega arith) in
        ap (λ (r : LogStore × Result LogError ℕ). on_disk r.0)
          (add-nothing cxof es committed ls v d (torn k) false none_new)
        ∙ ap content_of d.logged
        ∙ sym (append-nil (log_magic ++ log_records committed))
        ∙ ap (λ t. (log_magic ++ log_records committed) ++ t) (sym nil)
        ∙ torn_log
    | inr new ↦
        ap (λ (r : LogStore × Result LogError ℕ). on_disk r.0)
          (add-something cxof es committed ls v d (torn k) false new)
        ∙ ap (λ (f : LogFile). f.content)
            (file_write_end committed (take k (log_records some_news)) d.storable)
        ∙ torn_log
  ]

  -- Add of storable entries to a store in step with its log, when the write breaks off after `k` bytes
  -- of the records and no truncation follows, by a crash or a failed rollback: the bytes on disk
  -- reopen without an error to the committed entries followed by those new ones whose records lie
  -- whole within the `k` bytes, and that store is in step with its log. Nothing committed is lost.
  pub add-crash :
      (open_log cxof (on_disk (add cxof (torn k) false es ls).0)
        ≡ ok (recovered cxof (committed ++ whole_within k some_news)))
      × IsDurable cxof
          (committed ++ whole_within k some_news)
          (recovered cxof (committed ++ whole_within k some_news))
  add-crash =
      let storable =
        All-append IsStorable committed some_news d.storable
          (new_of-storable cxof es ls.mem [] v) in
      let front =
        (whole_within-IsFront k some_news (new_of-storable cxof es ls.mem [] v)).storable in
      (
        ap (open_log cxof) on_disk-torn
            ∙ open_log-cut cxof (committed ++ some_news) (records_size committed + k) storable
                (omega (arith, records_size-append committed some_news))
            ∙ ap (λ (t : List Entry). ok (recovered cxof t)) (within-append committed some_news k),
        recovered-IsDurable cxof (committed ++ whole_within k some_news)
            (All-append IsStorable committed (whole_within k some_news) d.storable front),
      )
