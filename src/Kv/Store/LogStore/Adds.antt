-- ===== src/Kv/Store/LogStore/Adds.antt =====
-- Add on every outcome of the write: memory and log stay in step.
use repani.Base.{
  ℕ, ◌+◌, ◌≡◌, refl, sym, ap, subst, ◌∙◌, Bool, true, false, ◌==◌, List, [], ◌++◌, append-nil, map,
  Bytes, length, take, length-zero, replicate, All, All-append, if◌then◌else◌, Bool-cases, inl, inr,
  Option, none, some, ok, err, Result, arith,
}
use repani.Kv.Vault.Entry.{Entry, IsStorable}
use repani.Kv.Vault.Ids.{entry_id}
use repani.Kv.Store.Canonical.Unique.{add_all}
use repani.Kv.Store.MemStore.Refines.{view}
use repani.Kv.Store.MemStore.Adds.{keyed}
use repani.Kv.Store.LogStore.{
  LogStore, LogFile, LogError, WriteOutcome, written, torn, unsynced, closed, write_failed,
  sync_failed, log_magic, file_write, rollback, add, commit, collect, put_records,
}
use repani.Kv.Store.LogStore.Records.{
  log_records, records_size, length-log_records, log_records-append, records_size-append,
}
use repani.Kv.Store.LogStore.News.{
  new_of, new_of-storable, collect-new_of, add_all-new_of, add_ids-refines, Covers-view,
}
use repani.Kv.Store.LogStore.Durable.{
  IsDurable, log_of, file_write_end, rollback_restores, buffer_records, add_all-append,
}

if-pair {ℓ κ} :
    {A : Type ℓ} {B : Type κ} (b : Bool) (a : A) (x y : B)
    → ◌≡◌ {A = A × B} (if b then (a, x) else (a, y)) (a, if b then x else y)
if-pair true a x y = refl
if-pair false a x y = refl

module _ (cxof : Bytes → Bytes → Bytes) (es committed : List Entry) (ls : LogStore)
    (v : All IsStorable es) (d : IsDurable cxof committed ls) where
  -- The entries that Add writes.
  abbrev pub news : List Entry
  news = new_of cxof es ls.mem []

  news-storable : All IsStorable news
  news-storable = new_of-storable cxof es ls.mem [] v

  abbrev pub news_ids : List Bytes
  news_ids = map (entry_id cxof) news

  collected : collect cxof es ls.mem [] [] [] 0 ≡ (news_ids, news, records_size news)
  collected = collect-new_of cxof es ls.mem [] [] [] 0 ∙ ap (λ t. (news_ids, news, t)) (omega arith)

  add-commit :
      (o : WriteOutcome) (cut : Bool)
      → add cxof o cut es ls ≡ (
          if length news == 0
          then (ls, ok 0)
          else commit cxof o cut news_ids news (log_records news) (log_of committed) ls)
  unfolding add
  add-commit o cut =
      ap
        (λ (r : List Bytes × List Entry × ℕ). if length r.1 == 0 then (ls, ok 0) else elim ls.file [
          | none ↦ (ls, err closed)
          | some f ↦ commit cxof o cut r.0 r.1 (put_records r.1 0 (replicate r.2 0)) f ls
        ])
        collected
      ∙ ap
          (λ (g : Option LogFile). if length news == 0 then (ls, ok 0) else elim g [
            | none ↦ (ls, err closed)
            | some f ↦
                commit cxof o cut news_ids news
                  (put_records news 0 (replicate (records_size news) 0)) f ls
          ])
          d.logged
      ∙ ap
          (λ (b : Bytes).
            if length news == 0
            then (ls, ok 0)
            else commit cxof o cut news_ids news b (log_of committed) ls)
          (buffer_records news news-storable)

  pub add-nothing :
      (o : WriteOutcome) (cut : Bool)
      → (length news == 0) ≡ true
      → add cxof o cut es ls ≡ (ls, ok 0)
  add-nothing o cut h = add-commit o cut ∙ (rw h refl)

  pub add-something :
      (o : WriteOutcome) (cut : Bool)
      → (length news == 0) ≡ false
      → add cxof o cut es ls
        ≡ commit cxof o cut news_ids news (log_records news) (log_of committed) ls
  add-something o cut h = add-commit o cut ∙ (rw h refl)

  pub no_news : (length news == 0) ≡ true → news ≡ []
  no_news h = length-zero news (ground arith)

  view-news :
      add_all (map (keyed cxof) news) (view ls.mem) ≡ add_all (map (keyed cxof) es) (view ls.mem)
  view-news = add_all-new_of cxof es ls.mem [] (view ls.mem) (Covers-view cxof ls.mem d.valid)

  grown_log : file_write (log_records news) (log_of committed) ≡ log_of (committed ++ news)
  grown_log =
      file_write_end committed (log_records news) d.storable
      ∙ ap
          (λ (t : Bytes). record {
            content = log_magic ++ t;
            pos = 8 + records_size committed + length (log_records news);
          })
          (sym (log_records-append committed news))
      ∙ ap (λ (n : ℕ). record { content = log_magic ++ log_records (committed ++ news); pos = n })
          (omega (arith, length-log_records news news-storable, records_size-append committed news))

  -- The result of a successful Add: the log and the memory are in step, the new entries last; the view
  -- is that of the canonical adds of all arguments; and the count is the number of new entries.
  pub record IsAdded (r : LogStore × Result LogError ℕ) : Type 0 where
    pub durable : IsDurable cxof (committed ++ news) r.0
    pub viewed : view r.0.mem ≡ add_all (map (keyed cxof) es) (view ls.mem)
    pub counted : r.1 ≡ ok (length news)

  -- Add of storable entries to a store in step with its log, when the write and the sync succeed:
  -- the new entries' records end the log, the memory's view becomes that of the canonical adds of the
  -- arguments, both are in step again, and the count returned is the number of the new entries.
  pub add-written : (cut : Bool) → IsAdded (add cxof written cut es ls)
  unfolding commit
  add-written cut = elim (Bool-cases (length news == 0)) [
    | inl none_new ↦
        let e = no_news none_new in
        let r = add-nothing written cut none_new in
        subst IsAdded (sym r) (record {
          durable =
              subst (λ c. IsDurable cxof c ls)
                (sym (ap (λ t. committed ++ t) e ∙ append-nil committed)) d;
          viewed = ap (λ t. add_all (map (keyed cxof) t) (view ls.mem)) (sym e) ∙ view-news;
          counted = ap (λ (t : List Entry). ok (length t)) (sym e);
        })
    | inr new ↦
        let (viewed, v') = add_ids-refines cxof news ls.mem d.valid in
        let r = add-something written cut new in
        subst IsAdded (sym r) (record {
          durable = record {
            storable = All-append IsStorable committed news d.storable news-storable;
            logged = ap some grown_log;
            viewed =
                viewed
                ∙ ap (add_all (map (keyed cxof) news)) d.viewed
                ∙ sym (add_all-append cxof committed news);
            valid = v';
          };
          viewed = viewed ∙ view-news;
          counted = refl;
        })
  ]

  restored :
      (buf : Bytes)
      → record ls {
        file =
            some (rollback true (8 + records_size committed) (file_write buf (log_of committed)));
      }
        ≡ ls
  restored buf =
      ap (λ (g : LogFile). record ls { file = some g }) (rollback_restores committed buf d.storable)
      ∙ ap (λ (g : Option LogFile). record ls { file = g }) (sym d.logged)

  fails_as :
      (o : WriteOutcome) (x : LogError)
      → commit cxof o true news_ids news (log_records news) (log_of committed) ls ≡ (ls, err x)
      → add cxof o true es ls ≡ (ls, if length news == 0 then ok 0 else err x)
  fails_as o x h =
      add-commit o true
      ∙ ap (λ (t : LogStore × Result LogError ℕ). if length news == 0 then (ls, ok 0) else t) h
      ∙ if-pair (length news == 0) ls (ok 0) (err x)

  -- Add of storable entries to a store in step with its log, when the write fails after any number of
  -- bytes or the sync fails, and the truncation of the rollback succeeds: file and memory are as they
  -- were, and the call returns the error, or a count of zero when no entry was new and so nothing was
  -- written.
  pub add-fails :
      (k : ℕ)
      → (add cxof (torn k) true es ls ≡ (ls, if length news == 0 then ok 0 else err write_failed))
        × (add cxof unsynced true es ls ≡ (ls, if length news == 0 then ok 0 else err sync_failed))
  unfolding commit
  add-fails k = (
    fails_as (torn k) write_failed
        (ap (λ (l : LogStore). (l, err write_failed)) (restored (take k (log_records news)))),
    fails_as unsynced sync_failed
        (ap (λ (l : LogStore). (l, err sync_failed)) (restored (log_records news))),
  )
