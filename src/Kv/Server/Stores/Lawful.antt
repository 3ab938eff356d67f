-- ===== src/Kv/Server/Stores/Lawful.antt =====
-- The stores of kv/store keep the laws that the server relies on.
use repani.Base.{
  ℕ, ◌≡◌, ◌⊎◌, inl, inr, refl, sym, ap, ◌∙◌, subst, Bool, false, List, [], ◌∷◌, ◌++◌, append-nil,
  map, Bytes, length, length-zero, ◌==◌, if◌then◌else◌, Bool-cases, arith, Option, none, some,
  Option-cases, Result, ok, err, replicate,
}
use repani.Kv.Vault.Entry.{Entry}
use repani.Kv.Vault.Ids.{entry_id, set_hash_ids}
use repani.Kv.Store.Canonical.{Keyed, ids}
use repani.Kv.Store.MemStore.{MemStore, len, set_hash, add as mem_add, add_loop}
use repani.Kv.Store.MemStore.Refines.{view, IsValid, new_mem_store-IsValid}
use repani.Kv.Store.MemStore.Adds.{IsCached, add-refines, set_hash_keeps}
use repani.Kv.Store.LogStore.{
  LogStore, LogFile, WriteOutcome, written, torn, unsynced, LogError, closed, close, collect,
  commit, put_records, add_ids, add as log_add,
}
use repani.Kv.Store.LogStore.News.{new_of, collect-new_of, add_ids-refines}
use repani.Kv.Server.Laws.{StoreLaws, IsFresh}
use repani.Kv.Server.Stores.{
  VaultStore, memory, logged, mem_of, with_mem, vault_add, vault_close, vault_ops, held_in,
  count_of,
}
use repani.Kv.Server.Stores.Fresh.{
  AreFresh, new_of-AreFresh, add_loop-fresh, add_ids-fresh, Extends-self, add_ids-IsCached,
  add_loop-nothing,
}
use repani.Kv.Server.Stores.Weight.{sorted-weight}

module _ (cxof : Bytes → Bytes → Bytes) where
  pub record IsGood (s : VaultStore) : Type 0 where
    pub valid : IsValid (mem_of s)
    pub cached : IsCached cxof (mem_of s)

  hash_entries : (m : MemStore) → (set_hash cxof m).0.entries ≡ m.entries
  unfolding set_hash
  hash_entries m = elim (Bool-cases m.hash_set) [ inl e ↦ rw e refl | inr e ↦ rw e refl ]

  mem_of-with_mem : (m : MemStore) (s : VaultStore) → mem_of (with_mem m s) ≡ m
  mem_of-with_mem m (memory n) = refl
  mem_of-with_mem m (logged ls) = refl

  with_mem-IsGood :
      (m : MemStore) (s : VaultStore) → IsValid m → IsCached cxof m → IsGood (with_mem m s)
  with_mem-IsGood m (memory n) v c = record { valid = v; cached = c }
  with_mem-IsGood m (logged ls) v c = record { valid = v; cached = c }

  logged-IsGood : (ls : LogStore) → IsValid ls.mem → IsCached cxof ls.mem → IsGood (logged ls)
  logged-IsGood ls v c = record { valid = v; cached = c }

  -- What an Add on a log leaves in memory: what was there, or the new entries added.
  data Added (es : List Entry) (ls : LogStore) : VaultStore × Option ℕ → Type 0 where
    kept : (r : VaultStore × Option ℕ) → mem_of r.0 ≡ ls.mem → r.1 ≡ none → Added es ls r
    nothing :
        (r : VaultStore × Option ℕ)
        → mem_of r.0 ≡ ls.mem
        → new_of cxof es ls.mem [] ≡ []
        → r.1 ≡ some 0
        → Added es ls r
    grew :
        (r : VaultStore × Option ℕ)
        → mem_of r.0
          ≡ add_ids cxof
              (map (entry_id cxof) (new_of cxof es ls.mem []))
              (new_of cxof es ls.mem [])
              ls.mem
        → (length (new_of cxof es ls.mem []) == 0) ≡ false
        → r.1 ≡ some (length (new_of cxof es ls.mem []))
        → Added es ls r

  add_log :
      WriteOutcome × Bool → List Bytes × List Entry × ℕ → LogStore → LogStore × Result LogError ℕ
  add_log a (is, news, total) ls = if length news == 0 then (ls, ok 0) else elim ls.file [
    | none ↦ (ls, err closed)
    | some f ↦ commit cxof a.0 a.1 is news (put_records news 0 (replicate total 0)) f ls
  ]

  commit-Added :
      (o : WriteOutcome) (cut : Bool) (es : List Entry) (buf : Bytes) (f : LogFile) (ls : LogStore)
      → (length (new_of cxof es ls.mem []) == 0) ≡ false
      → Added es ls (
          let r =
            commit cxof o cut
              (map (entry_id cxof) (new_of cxof es ls.mem []))
              (new_of cxof es ls.mem [])
              buf
              f
              ls in
          (logged r.0, count_of r.1))
  unfolding commit
  commit-Added written cut es buf f ls n = grew _ refl n refl
  commit-Added (torn k) cut es buf f ls n = kept _ refl refl
  commit-Added unsynced cut es buf f ls n = kept _ refl refl

  log-Added :
      (a : WriteOutcome × Bool) (es : List Entry) (ls : LogStore)
      → Added es ls (vault_add cxof a es (logged ls))
  unfolding vault_add log_add add_log
  log-Added a es ls =
      let news = new_of cxof es ls.mem [] in
      let found = collect-new_of cxof es ls.mem [] [] [] 0 in
      subst
        (λ (c : List Bytes × List Entry × ℕ).
          Added es ls (let r = add_log a c ls in (logged r.0, count_of r.1)))
        (sym found)
        (elim (Bool-cases (length news == 0)) [
          | inl z ↦ rw z (nothing _ refl (length-zero news (ground arith)) refl)
          | inr n ↦ elim (Option-cases ls.file) [
            | inl c ↦ simp (n, c) (kept _ refl refl)
            | inr (f, c) ↦ simp (n, c) (commit-Added a.0 a.1 es _ f ls n)
          ]
        ])

  memory-laws :
      (es : List Entry) (m : MemStore) → IsGood (memory m) → IsGood (memory (mem_add cxof es m).0)
  memory-laws es m g =
      let (_, v, c) = add-refines cxof es m g.valid g.cached in record { valid = v; cached = c }

  Added-IsGood :
      {r : VaultStore × Option ℕ}
      → (es : List Entry) (ls : LogStore) → IsGood (logged ls)
      → Added es ls r
      → IsGood r.0
  Added-IsGood es ls g (kept r m e) = record {
    valid = subst IsValid (sym m) g.valid;
    cached = subst (IsCached cxof) (sym m) g.cached;
  }
  Added-IsGood es ls g (nothing r m n e) = record {
    valid = subst IsValid (sym m) g.valid;
    cached = subst (IsCached cxof) (sym m) g.cached;
  }
  Added-IsGood es ls g (grew r m n e) =
      let news = new_of cxof es ls.mem [] in
      record {
        valid = subst IsValid (sym m) (add_ids-refines cxof news ls.mem g.valid).1;
        cached = subst (IsCached cxof) (sym m) (add_ids-IsCached cxof news ls.mem g.cached);
      }

  vault_add-IsGood :
      (a : WriteOutcome × Bool) (es : List Entry) (s : VaultStore)
      → IsGood s
      → IsGood (vault_add cxof a es s).0
  unfolding vault_add
  vault_add-IsGood a es (memory m) g = memory-laws es m g
  vault_add-IsGood a es (logged ls) g = Added-IsGood es ls g (log-Added a es ls)

  fresh_for :
      (s : VaultStore) (seen : List Bytes) (es : List Entry)
      → IsFresh cxof (vault_ops cxof) s seen es
      → AreFresh cxof (mem_of s) seen es
  fresh_for s seen [] h = tt
  fresh_for s seen (e ∷ es) (a, b, h) = (a, b, fresh_for s (entry_id cxof e ∷ seen) es h)

  Grown : List Entry → VaultStore → ℕ → VaultStore → Type 0
  Grown es s n s' = (held_in cxof s' ≡ held_in cxof s ++ es) × (n ≡ length es)

  Added-ok :
      {r : VaultStore × Option ℕ}
      → (es : List Entry) (ls : LogStore) (n : ℕ) → AreFresh cxof ls.mem [] es
      → r.1 ≡ some n
      → Added es ls r
      → Grown es (logged ls) n r.0
  unfolding Grown
  Added-ok es ls n f h (kept r m e) = absurd (cc)
  Added-ok es ls n f h (nothing r m nil e) =
      let all = new_of-AreFresh cxof ls.mem [] es f in
      let empty : es ≡ [] = sym all ∙ nil in
      let zero_count : n ≡ 0 = cc (sym h ∙ e) in
      (
        ap (λ (x : MemStore). x.entries) m
            ∙ sym (append-nil ls.mem.entries)
            ∙ ap (λ t. ls.mem.entries ++ t) (sym empty),
        rw empty zero_count,
      )
  Added-ok es ls n f h (grew r m new e) =
      let all = new_of-AreFresh cxof ls.mem [] es f in
      let count : n ≡ length (new_of cxof es ls.mem []) = cc (sym h ∙ e) in
      (
        ap (λ (x : MemStore). x.entries) m
            ∙ ap (λ t. (add_ids cxof (map (entry_id cxof) t) t ls.mem).entries) all
            ∙ add_ids-fresh cxof ls.mem [] es ls.mem (Extends-self cxof ls.mem) f,
        count ∙ ap length all,
      )

  vault_add-Grown :
      (a : WriteOutcome × Bool) (es : List Entry) (s : VaultStore) (n : ℕ)
      → IsFresh cxof (vault_ops cxof) s [] es
      → (vault_add cxof a es s).1 ≡ some n
      → Grown es s n (vault_add cxof a es s).0
  unfolding vault_add mem_add Grown
  vault_add-Grown a es (memory m) n f h =
      let (grown, count) =
        add_loop-fresh cxof m [] es m 0 (Extends-self cxof m) (fresh_for (memory m) [] es f) in
      let same : (add_loop cxof es m 0).1 ≡ n = cc h in (grown, omega arith)
  vault_add-Grown a es (logged ls) n f h =
      Added-ok es ls n (fresh_for (logged ls) [] es f) h (log-Added a es ls)

  view-mem :
      (s : VaultStore)
      → IsGood s
      → (set_hash cxof (mem_of s)).1 ≡ set_hash_ids cxof (ids (view (mem_of s)))
  view-mem s g = (set_hash_keeps cxof (mem_of s) g.valid g.cached).0

  -- A failed Add, and one that counts nothing, keep the memory.
  Added-kept :
      {r : VaultStore × Option ℕ}
      → (es : List Entry) (ls : LogStore) → (r.1 ≡ none) ⊎ (r.1 ≡ some 0)
      → Added es ls r
      → mem_of r.0 ≡ ls.mem
  Added-kept es ls h (kept r m e) = m
  Added-kept es ls h (nothing r m nil e) = m
  Added-kept es ls (inl h) (grew r m new e) = absurd (cc)
  Added-kept es ls (inr h) (grew r m new e) =
      let zero_count : 0 ≡ length (new_of cxof es ls.mem []) = cc (sym h ∙ e) in
      absurd (ground arith)

  vault_add-kept :
      (a : WriteOutcome × Bool) (es : List Entry) (s : VaultStore)
      → ((vault_add cxof a es s).1 ≡ none) ⊎ ((vault_add cxof a es s).1 ≡ some 0)
      → mem_of (vault_add cxof a es s).0 ≡ mem_of s
  unfolding vault_add mem_add
  vault_add-kept a es (memory m) (inl h) = absurd (cc)
  vault_add-kept a es (memory m) (inr h) = add_loop-nothing cxof es m 0 (cc h)
  vault_add-kept a es (logged ls) h = Added-kept es ls h (log-Added a es ls)

  same_hash :
      (s s' : VaultStore)
      → mem_of s' ≡ mem_of s
      → (set_hash cxof (mem_of s')).1 ≡ (set_hash cxof (mem_of s)).1
  same_hash s s' e = ap (λ m. (set_hash cxof m).1) e

  set_hash-IsGood : (s : VaultStore) → IsGood s → IsGood (with_mem (set_hash cxof (mem_of s)).0 s)
  set_hash-IsGood s g =
      let (_, _, v, c) = set_hash_keeps cxof (mem_of s) g.valid g.cached in with_mem-IsGood _ s v c

  hash_again :
      (s : VaultStore)
      → IsGood s
      → (set_hash cxof (mem_of (with_mem (set_hash cxof (mem_of s)).0 s))).1
        ≡ (set_hash cxof (mem_of s)).1
  hash_again s g =
      let m = mem_of s in
      let (h, same, v, c) = set_hash_keeps cxof m g.valid g.cached in
      ap (λ (x : MemStore). (set_hash cxof x).1) (mem_of-with_mem (set_hash cxof m).0 s)
      ∙ (set_hash_keeps cxof (set_hash cxof m).0 v c).0
      ∙ ap (λ (ks : List Keyed). set_hash_ids cxof (ids ks)) same
      ∙ sym h

  mem_of-vault_close : (s : VaultStore) → mem_of (vault_close s) ≡ mem_of s
  unfolding vault_close close
  mem_of-vault_close (memory m) = refl
  mem_of-vault_close (logged ls) = refl

  close-IsGood : (s : VaultStore) → IsGood s → IsGood (vault_close s)
  unfolding vault_close close
  close-IsGood (memory m) g = g
  close-IsGood (logged ls) g = record { valid = g.valid; cached = g.cached }

  vault_add-empty : (a : WriteOutcome × Bool) (s : VaultStore) → vault_add cxof a [] s ≡ (s, some 0)
  unfolding vault_add mem_add add_loop log_add collect
  vault_add-empty a (memory m) = refl
  vault_add-empty a (logged ls) = refl

  -- MemStore and LogStore, whatever the system answers to a write, keep every law that the server
  -- relies on: entries that are new and distinct are added in their order and counted, a failed Add and
  -- one that counts nothing leave the entries and the set hash, an empty one succeeds, and SetHash and
  -- Close change neither.
  pub stores_lawful : StoreLaws cxof (vault_ops cxof) IsGood (held_in cxof)
  unfolding len Grown
  stores_lawful = record {
    new_good = record { valid = new_mem_store-IsValid; cached = λ h. absurd (cc) };
    new_held = refl;
    len_held = λ s g. refl;
    sorted_held = λ s g. sorted-weight (mem_of s) g.valid;
    add_good = vault_add-IsGood;
    add_ok = λ a es s n g f h. vault_add-Grown a es s n f h;
    add_err = λ a es s g h.
        let e = vault_add-kept a es s (inl h) in
        (ap (λ (m : MemStore). m.entries) e, same_hash s (vault_add cxof a es s).0 e);
    add_nothing =
        λ a es s g h. same_hash s (vault_add cxof a es s).0 (vault_add-kept a es s (inr h));
    set_hash_good = set_hash-IsGood;
    set_hash_held = λ s g.
        ap (λ (m : MemStore). m.entries) (mem_of-with_mem (set_hash cxof (mem_of s)).0 s)
        ∙ hash_entries (mem_of s);
    set_hash_again = hash_again;
    close_good = close-IsGood;
    close_held = λ s g. ap (λ (m : MemStore). m.entries) (mem_of-vault_close s);
    close_hash = λ s g. same_hash s (vault_close s) (mem_of-vault_close s);
    add_empty = vault_add-empty;
  }
