-- ===== src/Kv/Store/MemStore/Adds.antt =====
-- Add over many entries, SetHash and its cache, and Appended.
use repani.Base.{
  ℕ, ◌+◌, ◌≡◌, ◌↔◌, inl, inr, refl, sym, ap, ◌∙◌, Bool, true, false, List, [], ◌∷◌, ◌++◌,
  append_assoc, append-nil, map, Bytes, length, drop, drop-append, length-append, min,
  if◌then◌else◌, Bool-cases, arith,
}
use repani.Kv.Vault.Entry.{Entry}
use repani.Kv.Vault.Ids.{entry_id, set_hash_ids}
use repani.Kv.Store.Canonical.{Keyed, has_id, ids, entries}
use repani.Kv.Store.Canonical.Unique.{Holds, NoCollision, add_all, add_all_converges}
use repani.Kv.Store.MemStore.{
  MemStore, new_mem_store, entry_at, id_at, add_locked, add_loop, add, sorted, set_hash, appended,
  len,
}
use repani.Kv.Store.MemStore.Refines.{view, IsValid, new_mem_store-IsValid, add_locked-refines}

sorted_from :
    (m : MemStore) (js : List ℕ)
    → map (entry_at m) js ≡ entries (map (λ j. record { id = id_at m j; entry = entry_at m j }) js)
sorted_from m [] = refl
sorted_from m (j ∷ js) = ap (λ t. entry_at m j ∷ t) (sorted_from m js)

-- Sorted is the entries of the view.
pub sorted-view : (m : MemStore) → sorted m ≡ entries (view m)
unfolding sorted
sorted-view m = sorted_from m m.order

ids_from :
    (m : MemStore) (js : List ℕ)
    → map (id_at m) js ≡ ids (map (λ j. record { id = id_at m j; entry = entry_at m j }) js)
ids_from m [] = refl
ids_from m (j ∷ js) = ap (λ t. id_at m j ∷ t) (ids_from m js)

module _ (cxof : Bytes → Bytes → Bytes) where
  -- An entry under the id that Add computes for it.
  abbrev pub keyed : Entry → Keyed
  keyed e = record { id = entry_id cxof e; entry = e }

  -- A cached set hash is the hash of the view's ids.
  abbrev pub IsCached : MemStore → Type 0
  IsCached m = m.hash_set ≡ true → m.set_hash ≡ set_hash_ids cxof (ids (view m))

  pub add_locked-IsCached :
      (id : Bytes) (e : Entry) (m : MemStore) → IsCached m → IsCached (add_locked id e m).0
  unfolding add_locked
  add_locked-IsCached id e m c = elim (Bool-cases (has_id id m.has)) [
    | inl old ↦ rw old c
    | inr new ↦ rw new (λ h. absurd (cc))
  ]

  add_loop-refines :
      (es : List Entry) (m : MemStore) (n : ℕ)
      → IsValid m
      → (view (add_loop cxof es m n).0 ≡ add_all (map keyed es) (view m))
        × IsValid (add_loop cxof es m n).0
  unfolding add_loop
  add_loop-refines [] m n v = (refl, v)
  add_loop-refines (e ∷ es) m n v =
      let (viewed, is_new, v') = add_locked-refines (entry_id cxof e) e m v in
      let r = add_locked (entry_id cxof e) e m in
      let (ih, w) = add_loop-refines es r.0 (if r.1 then n + 1 else n) v' in
      (ih ∙ ap (add_all (map keyed es)) viewed, w)

  add_loop-IsCached :
      (es : List Entry) (m : MemStore) (n : ℕ) → IsCached m → IsCached (add_loop cxof es m n).0
  unfolding add_loop
  add_loop-IsCached [] m n c = c
  add_loop-IsCached (e ∷ es) m n c =
      add_loop-IsCached es _ _ (add_locked-IsCached (entry_id cxof e) e m c)

  -- Add on a valid store puts its entries into the view as the canonical add does one after the other,
  -- and the store stays valid, its cached hash included.
  pub add-refines :
      (es : List Entry) (m : MemStore)
      → IsValid m
      → IsCached m
      → (view (add cxof es m).0 ≡ add_all (map keyed es) (view m))
        × IsValid (add cxof es m).0
        × IsCached (add cxof es m).0
  unfolding add
  add-refines es m v c =
      let (viewed, w) = add_loop-refines es m 0 v in (viewed, w, add_loop-IsCached es m 0 c)

  set_hash-view :
      (m : MemStore) → IsCached m → (set_hash cxof m).1 ≡ set_hash_ids cxof (ids (view m))
  unfolding set_hash
  set_hash-view m c = elim (Bool-cases m.hash_set) [
    | inl old ↦ rw old (c old)
    | inr new ↦ rw new (ap (set_hash_ids cxof) (ids_from m m.order))
  ]

  with_cache : MemStore → Bytes → MemStore
  with_cache m h = record m { set_hash = h; hash_set = true }

  with_cache-IsValid : (m : MemStore) (h : Bytes) → IsValid m → IsValid (with_cache m h)
  unfolding with_cache
  with_cache-IsValid m h v = record {
    aligned = v.aligned;
    in_range = v.in_range;
    known = v.known;
    canonical = v.canonical;
    same_items = v.same_items;
  }

  -- What SetHash leaves in its two branches.
  Kept : MemStore → MemStore × Bytes → Type 0
  Kept m r =
      (r.1 ≡ set_hash_ids cxof (ids (view m))) × (view r.0 ≡ view m) × IsValid r.0 × IsCached r.0

  keeps_branch :
      (m : MemStore) (b : Bool)
      → IsValid m
      → IsCached m
      → m.hash_set ≡ b
      → Kept m (
          if b then (m, m.set_hash) else (
            with_cache m (set_hash_ids cxof (map (id_at m) m.order)),
            set_hash_ids cxof (map (id_at m) m.order),
          ))
  unfolding Kept with_cache
  keeps_branch m true v c e = (c e, refl, v, c)
  keeps_branch m false v c e =
      let h : set_hash_ids cxof (map (id_at m) m.order) ≡ set_hash_ids cxof (ids (view m)) =
        ap (set_hash_ids cxof) (ids_from m m.order) in
      (h, refl, with_cache-IsValid m _ v, λ _. h)

  -- SetHash on a valid store returns the hash of the canonical ids, and the store it leaves has the same view and is
  -- valid, its cache included.
  pub set_hash_keeps :
      (m : MemStore)
      → IsValid m
      → IsCached m
      → ((set_hash cxof m).1 ≡ set_hash_ids cxof (ids (view m)))
        × (view (set_hash cxof m).0 ≡ view m)
        × IsValid (set_hash cxof m).0
        × IsCached (set_hash cxof m).0
  unfolding set_hash Kept with_cache
  set_hash_keeps m v c = keeps_branch m m.hash_set v c refl

  -- Two new stores, each given the same entries by one Add, in any order and any number of times, hold
  -- the same canonical sequence and report the same set hash, when no two different ones of the
  -- entries share an id.
  pub add-converges :
      (es fs : List Entry)
      → NoCollision (map keyed es)
      → ((k : Keyed) → Holds k (map keyed es) ↔ Holds k (map keyed fs))
      → (sorted (add cxof es new_mem_store).0 ≡ sorted (add cxof fs new_mem_store).0)
        × ((set_hash cxof (add cxof es new_mem_store).0).1
            ≡ (set_hash cxof (add cxof fs new_mem_store).0).1)
  add-converges es fs n same =
      let fresh : IsCached new_mem_store = λ h. absurd (cc) in
      let (ve, _, ce) = add-refines es new_mem_store new_mem_store-IsValid fresh in
      let (vf, _, cf) = add-refines fs new_mem_store new_mem_store-IsValid fresh in
      let views : view (add cxof es new_mem_store).0 ≡ view (add cxof fs new_mem_store).0 =
        ve ∙ add_all_converges (map keyed es) (map keyed fs) n same ∙ sym vf in
      (
        sorted-view _ ∙ ap entries views ∙ sym (sorted-view _),
        set_hash-view _ ce ∙ ap (λ ks. set_hash_ids cxof (ids ks)) views ∙ sym (set_hash-view _ cf),
      )

  add_locked-appends :
      (id : Bytes) (e : Entry) (m : MemStore) (n : ℕ)
      → (new : List Entry) × ((add_locked id e m).0.entries ≡ m.entries ++ new)
        × ((if (add_locked id e m).1 then n + 1 else n) ≡ n + length new)
  unfolding add_locked
  add_locked-appends id e m n = elim (Bool-cases (has_id id m.has)) [
    | inl old ↦
        ([], rw (add_locked, old) (sym (append-nil m.entries)), rw (add_locked, old) (omega arith))
    | inr new ↦ (e ∷ [], rw (add_locked, new) refl, rw (add_locked, new) (omega arith))
  ]

  add_loop-appends :
      (es : List Entry) (m : MemStore) (n : ℕ)
      → (new : List Entry) × ((add_loop cxof es m n).0.entries ≡ m.entries ++ new)
        × ((add_loop cxof es m n).1 ≡ n + length new)
  unfolding add_loop
  add_loop-appends [] m n = ([], sym (append-nil m.entries), omega arith)
  add_loop-appends (e ∷ es) m n =
      let r = add_locked (entry_id cxof e) e m in
      let k = if r.1 then n + 1 else n in
      let (one, first, count) = add_locked-appends (entry_id cxof e) e m n in
      let (new, rest, total) = add_loop-appends es r.0 k in
      (
        one ++ new,
        rest ∙ ap (λ t. t ++ new) first ∙ append_assoc m.entries one new,
        omega (arith, length-append one new),
      )

  -- A reader that has taken the first Len entries gets by Appended exactly the ones that an Add
  -- appends, and Add's count is their number and the growth of Len.
  pub appended-add :
      (es : List Entry) (m : MemStore)
      → ((add cxof es m).0.entries ≡ m.entries ++ appended (len m) (add cxof es m).0)
        × ((add cxof es m).1 ≡ length (appended (len m) (add cxof es m).0))
        × (len (add cxof es m).0 ≡ len m + (add cxof es m).1)
  unfolding add appended len
  appended-add es m =
      let (new, grown, count) = add_loop-appends es m 0 in
      let total : length (add_loop cxof es m 0).0.entries ≡ length m.entries + length new =
        ap length grown ∙ length-append m.entries new in
      let taken : min (length m.entries) (length (add_loop cxof es m 0).0.entries)
          ≡ length m.entries =
        omega arith in
      let tail : drop (length m.entries) (add_loop cxof es m 0).0.entries ≡ new =
        rw grown (drop-append (length m.entries) m.entries new refl) in
      rw (taken, tail) (grown, omega arith, omega arith)
