-- ===== src/Kv/Server/Stores/Fresh.antt =====
-- Entries that a store does not hold, each once, are all added, in their order.
use repani.Base.{
  ℕ, ◌+◌, ◌≤◌, ◌≡◌, inl, inr, refl, sym, ap, ◌∙◌, true, false, ◌||◌, List, [], ◌∷◌, ◌++◌,
  append_assoc, append-nil, map, Bytes, length, if◌then◌else◌, Bool-cases, arith,
}
use repani.Kv.Vault.Entry.{Entry}
use repani.Kv.Vault.Ids.{entry_id}
use repani.Kv.Store.Canonical.{has_id, has_id-cons}
use repani.Kv.Store.MemStore.{MemStore, has_entry, add_locked, add_loop}
use repani.Kv.Store.MemStore.Adds.{IsCached, add_locked-IsCached}
use repani.Kv.Store.LogStore.{add_ids}
use repani.Kv.Store.LogStore.News.{new_of}

module _ (cxof : Bytes → Bytes → Bytes) where
  abbrev pub AreFresh : MemStore → List Bytes → List Entry → Type 0
  AreFresh m seen [] = Unit {0}
  AreFresh m seen (e ∷ es) =
      (has_id (entry_id cxof e) seen ≡ false)
      × (has_entry (entry_id cxof e) m ≡ false)
      × AreFresh m (entry_id cxof e ∷ seen) es

  pub new_of-AreFresh :
      (m : MemStore) (seen : List Bytes) (es : List Entry)
      → AreFresh m seen es
      → new_of cxof es m seen ≡ es
  unfolding new_of
  new_of-AreFresh m seen [] h = refl
  new_of-AreFresh m seen (e ∷ es) (a, b, h) =
      rw (a, b) (ap (λ t. e ∷ t) (new_of-AreFresh m (entry_id cxof e ∷ seen) es h))

  -- `m` holds what `m0` holds, and `seen`.
  abbrev Extends : MemStore → List Bytes → MemStore → Type 0
  Extends m0 seen m = (x : Bytes) → has_entry x m ≡ (has_id x seen || has_entry x m0)

  add_locked-fresh :
      (m0 m : MemStore) (seen : List Bytes) (e : Entry)
      → Extends m0 seen m
      → has_id (entry_id cxof e) seen ≡ false
      → has_entry (entry_id cxof e) m0 ≡ false
      → ((add_locked (entry_id cxof e) e m).0.entries ≡ m.entries ++ e ∷ [])
        × ((add_locked (entry_id cxof e) e m).1 ≡ true)
        × Extends m0 (entry_id cxof e ∷ seen) (add_locked (entry_id cxof e) e m).0
  unfolding add_locked has_entry
  add_locked-fresh m0 m seen e x a b =
      let id = entry_id cxof e in
      let new : has_id id m.has ≡ false = x id ∙ (rw (a, b) refl) in
      rw new
        (refl, refl, λ y. rw (has_id-cons y id m.has, has_id-cons y id seen, x y) (ground arith))

  pub add_loop-fresh :
      (m0 : MemStore) (seen : List Bytes) (es : List Entry) (m : MemStore) (n : ℕ)
      → Extends m0 seen m
      → AreFresh m0 seen es
      → ((add_loop cxof es m n).0.entries ≡ m.entries ++ es)
        × ((add_loop cxof es m n).1 ≡ n + length es)
  unfolding add_loop
  add_loop-fresh m0 seen [] m n x f = (sym (append-nil m.entries), omega arith)
  add_loop-fresh m0 seen (e ∷ es) m n x (a, b, f) =
      let id = entry_id cxof e in
      let (entries, new, x') = add_locked-fresh m0 m seen e x a b in
      let r = add_locked id e m in
      let k = if r.1 then n + 1 else n in
      let counted : k ≡ n + 1 = rw new refl in
      let (rest, total) = add_loop-fresh m0 (id ∷ seen) es r.0 k x' f in
      (rest ∙ ap (λ t. t ++ es) entries ∙ append_assoc m.entries (e ∷ []) es, omega arith)

  pub add_ids-fresh :
      (m0 : MemStore) (seen : List Bytes) (es : List Entry) (m : MemStore)
      → Extends m0 seen m
      → AreFresh m0 seen es
      → (add_ids cxof (map (entry_id cxof) es) es m).entries ≡ m.entries ++ es
  unfolding add_ids
  add_ids-fresh m0 seen [] m x f = sym (append-nil m.entries)
  add_ids-fresh m0 seen (e ∷ es) m x (a, b, f) =
      let id = entry_id cxof e in
      let (entries, _, x') = add_locked-fresh m0 m seen e x a b in
      add_ids-fresh m0 (id ∷ seen) es (add_locked id e m).0 x' f
      ∙ ap (λ t. t ++ es) entries
      ∙ append_assoc m.entries (e ∷ []) es

  pub Extends-self : (m : MemStore) → Extends m [] m
  unfolding has_id
  Extends-self m x = refl

  pub add_ids-IsCached :
      (es : List Entry) (m : MemStore)
      → IsCached cxof m
      → IsCached cxof (add_ids cxof (map (entry_id cxof) es) es m)
  unfolding add_ids
  add_ids-IsCached [] m c = c
  add_ids-IsCached (e ∷ es) m c =
      add_ids-IsCached es (add_locked (entry_id cxof e) e m).0
        (add_locked-IsCached cxof (entry_id cxof e) e m c)

  -- An Add that counts nothing leaves the store as it was.
  add_locked-count :
      (id : Bytes) (e : Entry) (m : MemStore)
      → (add_locked id e m).1 ≡ false
      → (add_locked id e m).0 ≡ m
  unfolding add_locked
  add_locked-count id e m h = elim (Bool-cases (has_id id m.has)) [
    | inl old ↦ rw (add_locked, old) refl
    | inr new ↦ absurd (cc (rw (add_locked, new) at h))
  ]

  add_loop-grows : (es : List Entry) (m : MemStore) (n : ℕ) → n ≤ (add_loop cxof es m n).1
  unfolding add_loop
  add_loop-grows [] m n = omega arith
  add_loop-grows (e ∷ es) m n =
      let r = add_locked (entry_id cxof e) e m in
      elim (Bool-cases r.1) [
        | inl b ↦ rw (add_loop, b) (omega (arith, add_loop-grows es r.0 (n + 1)))
        | inr b ↦ rw (add_loop, b) (add_loop-grows es r.0 n)
      ]

  pub add_loop-nothing :
      (es : List Entry) (m : MemStore) (n : ℕ)
      → (add_loop cxof es m n).1 ≡ n
      → (add_loop cxof es m n).0 ≡ m
  unfolding add_loop
  add_loop-nothing [] m n h = refl
  add_loop-nothing (e ∷ es) m n h =
      let id = entry_id cxof e in
      let r = add_locked id e m in
      elim (Bool-cases r.1) [
        | inl b ↦ absurd (omega (arith, add_loop-grows es r.0 (n + 1), rw (add_loop, b) at h))
        | inr b ↦
            rw (add_loop, b)
              (add_loop-nothing es r.0 n (rw (add_loop, b) at h) ∙ add_locked-count id e m b)
      ]
