-- ===== src/Kv/Store/MemStore/Refines.antt =====
-- addLocked refines the canonical add: its fast path and its binary search insert at the same place
-- as a scan of the sorted set.
use mathlib.Core.List.{Perm, perm_append_singleton}
use mathlib.Core.List.Perm
use repani.Base.{
  ℕ, ◌+◌, ◌-◌, ◌≡◌, ◌<◌, inl, inr, refl, sym, ap, ◌∙◌, Bool, false, not, ◌||◌, List, [], ◌∷◌, ◌++◌,
  map, Bytes, length, take, drop, get_or, ◌==◌, All, length-append, get_or-append,
  get_or-append_end, map_congr, All-append, All-take, All-drop, All-map_lem, Bool-cases, is_lt,
  arith,
}
use repani.Base.Search.{binary_search}
use repani.Kv.Vault.Entry.{Entry}
use repani.Kv.Store.Canonical
use repani.Kv.Store.Canonical.{
  Keyed, compare_keyed, compare_keyed_trans, has_id, bytes_eq, ids, IsSorted, insert,
  insert-IsSorted, has_id-insert, has_id-cons,
}
use repani.Kv.Store.MemStore.{
  MemStore, new_mem_store, entry_at, id_at, compare_at, add_locked, no_entry, place,
}
use repani.Kv.Store.MemStore.Places.{place-insert}

abbrev pub keyed_at : MemStore → ℕ → Keyed
keyed_at m j = record { id = id_at m j; entry = entry_at m j }

-- The abstract value of a store: its entries with their ids, in the order of its index.
abbrev pub view : MemStore → List Keyed
view m = map (keyed_at m) m.order

abbrev pub zip_keyed : List Bytes → List Entry → List Keyed
zip_keyed [] es = []
zip_keyed (i ∷ is) [] = []
zip_keyed (i ∷ is) (e ∷ es) = record { id = i; entry = e } ∷ zip_keyed is es

-- The entries with their ids, in the order added.
abbrev pub added : MemStore → List Keyed
added m = zip_keyed m.ids m.entries

added_end :
    (k : Keyed) (is : List Bytes) (es : List Entry)
    → length is ≡ length es
    → zip_keyed (is ++ k.id ∷ []) (es ++ k.entry ∷ []) ≡ zip_keyed is es ++ k ∷ []
added_end k [] [] h = refl
added_end k [] (e ∷ es) h = absurd (omega arith)
added_end k (i ∷ is) [] h = absurd (omega arith)
added_end k (i ∷ is) (e ∷ es) h =
    ap (λ t. record { id = i; entry = e } ∷ t) (added_end k is es (omega arith))

insert-perm : (k : Keyed) (qs : List Keyed) → Perm (insert k qs) (k ∷ qs)
unfolding insert
insert-perm k [] = Perm.refl (k ∷ [])
insert-perm k (q ∷ qs) = elim (Bool-cases (is_lt (compare_keyed q k))) [
  | inl e ↦ rw e (Perm.trans (Perm.cons q (insert-perm k qs)) (Perm.swap k q qs))
  | inr e ↦ rw e (Perm.refl (k ∷ q ∷ qs))
]

All-place :
    (P : ℕ → Type 0) (below : ℕ → Bool) (i : ℕ) (js : List ℕ)
    → P i
    → All P js
    → All P (place below i js)
unfolding place
All-place P below i js h hs =
    elim (Bool-cases (length js == 0 || below (get_or js (length js - 1) 0))) [
      | inl fast ↦ rw fast (All-append P js (i ∷ []) hs (h, tt))
      | inr slow ↦
          let at = binary_search below js in
          rw slow (
            All-append P (take at js) (i ∷ drop at js) (All-take P at js hs)
              (h, All-drop P at js hs))
    ]

-- What every store that New and Add make satisfies.
pub record IsValid (m : MemStore) : Type 0 where
  pub aligned : length m.ids ≡ length m.entries
  pub in_range : All (λ j. j < length m.entries) m.order
  pub known : (id : Bytes) → has_id id m.has ≡ has_id id (ids (view m))
  pub canonical : IsSorted (view m)
  pub same_items : Perm (view m) (added m)

pub new_mem_store-IsValid : IsValid new_mem_store
unfolding has_id
new_mem_store-IsValid = record {
  aligned = refl;
  in_range = tt;
  known = λ id. refl;
  canonical = tt;
  same_items = Perm.refl [];
}

-- The store of addLocked before its index is updated.
module _ (id : Bytes) (e : Entry) (m : MemStore) (v : IsValid m) where
  abbrev m1 : MemStore
  m1 = record m { entries = m.entries ++ e ∷ []; ids = m.ids ++ id ∷ []; has = id ∷ m.has }

  abbrev new_keyed : Keyed
  new_keyed = record { id = id; entry = e }

  keyed_at-old : (j : ℕ) → j < length m.entries → keyed_at m1 j ≡ keyed_at m j
  keyed_at-old j h = λ i. record {
    id = get_or-append j m.ids (id ∷ []) [] (omega (arith, v.aligned)) i;
    entry = get_or-append j m.entries (e ∷ []) no_entry h i;
  }

  keyed_at-new : keyed_at m1 (length m.entries) ≡ new_keyed
  keyed_at-new = λ i. record {
    id = get_or-append_end (length m.entries) m.ids id [] v.aligned i;
    entry = get_or-append_end (length m.entries) m.entries e no_entry refl i;
  }

  view-m1 : map (keyed_at m1) m.order ≡ view m
  view-m1 =
      map_congr (λ j. j < length m.entries) (keyed_at m1) (keyed_at m) m.order keyed_at-old
        v.in_range

  IsSorted-m1 : IsSorted (map (keyed_at m1) m.order)
  IsSorted-m1 = rw view-m1 v.canonical

  abbrev m2 : MemStore
  m2 = record m1 {
    order = place (λ j. is_lt (compare_at m1 e.ts_ms id j)) (length m.entries) m.order;
    hash_set = false;
  }

  view-m2 : view m2 ≡ insert new_keyed (view m)
  unfolding compare_at compare_keyed
  view-m2 =
      place-insert (keyed_at m1) new_keyed (length m.entries) m.order keyed_at-new IsSorted-m1
      ∙ ap (insert new_keyed) view-m1

  known-m2 : (x : Bytes) → has_id x m2.has ≡ has_id x (ids (view m2))
  known-m2 x =
      has_id-cons x id m.has
      ∙ ap (λ b. bytes_eq id x || b) (v.known x)
      ∙ sym (has_id-insert x new_keyed (view m))
      ∙ ap (λ qs. has_id x (ids qs)) (sym view-m2)

  m2-IsValid : has_id id m.has ≡ false → IsValid m2
  m2-IsValid new =
      let grown : length (m.entries ++ e ∷ []) ≡ length m.entries + 1 =
        length-append m.entries (e ∷ []) in
      let unknown : has_id id (ids (view m)) ≡ false = sym (v.known id) ∙ new in
      record {
        aligned =
            omega
              (arith, v.aligned, length-append m.ids (id ∷ []), length-append m.entries (e ∷ []));
        in_range =
            All-place (λ j. j < length (m.entries ++ e ∷ [])) _ (length m.entries) m.order
              (omega arith)
              (All-map_lem (λ j. j < length m.entries) (λ j. j < length (m.entries ++ e ∷ []))
                m.order (λ j h. omega arith) v.in_range);
        known = known-m2;
        canonical = rw view-m2 (insert-IsSorted new_keyed (view m) unknown v.canonical);
        same_items =
            rw (view-m2, added_end new_keyed m.ids m.entries v.aligned)
              (Perm.trans (insert-perm new_keyed (view m)) (
                Perm.trans (Perm.cons new_keyed v.same_items)
                  (Perm.symm (perm_append_singleton new_keyed (added m)))));
      }

-- addLocked on a valid store refines the canonical add: the store's view becomes the view with the entry added (or
-- stays, if its id was there), the result tells whether the id was new, and the store stays valid.
pub add_locked-refines :
    (id : Bytes) (e : Entry) (m : MemStore)
    → IsValid m
    → (view (add_locked id e m).0 ≡ Canonical.add (record { id = id; entry = e }) (view m))
      × ((add_locked id e m).1 ≡ not (has_id id (ids (view m))))
      × IsValid (add_locked id e m).0
unfolding add_locked Canonical.add
add_locked-refines id e m v = elim (Bool-cases (has_id id m.has)) [
  | inl old ↦ rw (old, sym (v.known id) ∙ old) (refl, refl, v)
  | inr new ↦ rw (new, sym (v.known id) ∙ new) (view-m2 id e m v, refl, m2-IsValid id e m v new)
]
