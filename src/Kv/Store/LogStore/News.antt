-- ===== src/Kv/Store/LogStore/News.antt =====
-- What Add selects from its arguments, and that the memory store gets the same set as from all of them.
use repani.Base.{
  ℕ, ◌+◌, ◌≡◌, refl, sym, ap, ◌∙◌, true, ◌||◌, List, [], ◌∷◌, ◌++◌, append_assoc, append-nil, map,
  Bytes, All, if◌then◌else◌, Bool-cases, inl, inr, arith,
}
use repani.Kv.Vault.Entry.{Entry, IsStorable, size}
use repani.Kv.Vault.Ids.{entry_id}
use repani.Kv.Store.Canonical.{Keyed, add, has_id, has_id-add, has_id-cons, ids}
use repani.Kv.Store.Canonical.Unique.{add_all}
use repani.Kv.Store.MemStore.{MemStore, has_entry, add_locked}
use repani.Kv.Store.MemStore.Refines.{view, IsValid, add_locked-refines}
use repani.Kv.Store.MemStore.Adds.{keyed}
use repani.Kv.Store.LogStore.{collect, add_ids}
use repani.Kv.Store.LogStore.Records.{records_size}

module _ (cxof : Bytes → Bytes → Bytes) where
  -- The entries that are in neither the store nor `seen`, each once.
  unfoldable pub new_of : List Entry → MemStore → List Bytes → List Entry
  new_of [] m seen = []
  new_of (e ∷ es) m seen =
      let id = entry_id cxof e in
      let old = has_id id seen || has_entry id m in
      let rest = new_of es m (if old then seen else id ∷ seen) in if old then rest else e ∷ rest

  pub new_of-storable :
      (es : List Entry) (m : MemStore) (seen : List Bytes)
      → All IsStorable es
      → All IsStorable (new_of es m seen)
  unfolding new_of
  new_of-storable [] m seen v = tt
  new_of-storable (e ∷ es) m seen (v, vs) =
      elim (Bool-cases (has_id (entry_id cxof e) seen || has_entry (entry_id cxof e) m)) [
        | inl old ↦ rw old (new_of-storable es m seen vs)
        | inr new ↦ rw new (v, new_of-storable es m (entry_id cxof e ∷ seen) vs)
      ]

  pub collect-new_of :
      (es : List Entry) (m : MemStore) (seen is : List Bytes) (news : List Entry) (total : ℕ)
      → collect cxof es m seen is news total ≡ (
        is ++ map (entry_id cxof) (new_of es m seen),
        news ++ new_of es m seen,
        total + records_size (new_of es m seen),
      )
  unfolding collect new_of
  collect-new_of [] m seen is news total = simp append-nil (ground arith)
  collect-new_of (e ∷ es) m seen is news total =
      let id = entry_id cxof e in
      elim (Bool-cases (has_id id seen || has_entry id m)) [
        | inl old ↦ rw old (collect-new_of es m seen is news total)
        | inr new ↦ rw new (
            collect-new_of es m (id ∷ seen) (is ++ id ∷ []) (news ++ e ∷ []) (total + (4 + size e))
            ∙ simp append_assoc (ground arith))
      ]

  -- The ids of `qs` are those of the store and those seen.
  abbrev Covers : List Keyed → MemStore → List Bytes → Type 0
  Covers qs m seen = (x : Bytes) → has_id x (ids qs) ≡ (has_id x seen || has_entry x m)

  Covers-add :
      (k : Keyed) (qs : List Keyed) (m : MemStore) (seen : List Bytes)
      → Covers qs m seen
      → Covers (add k qs) m (k.id ∷ seen)
  Covers-add k qs m seen c x = has_id-add x k qs ∙ rw (c x, has_id-cons x k.id seen) (ground arith)

  -- A known id adds nothing, and an unknown one is inserted.
  add_known : (k : Keyed) (qs : List Keyed) → has_id k.id (ids qs) ≡ true → add k qs ≡ qs
  unfolding add
  add_known k qs h = rw h refl

  -- Leaving out what is known changes no set.
  pub add_all-new_of :
      (es : List Entry) (m : MemStore) (seen : List Bytes) (qs : List Keyed)
      → Covers qs m seen
      → add_all (map (keyed cxof) (new_of es m seen)) qs ≡ add_all (map (keyed cxof) es) qs
  unfolding new_of
  add_all-new_of [] m seen qs c = refl
  add_all-new_of (e ∷ es) m seen qs c =
      let id = entry_id cxof e in
      elim (Bool-cases (has_id id seen || has_entry id m)) [
        | inl old ↦ rw old (
            add_all-new_of es m seen qs c
            ∙ ap (add_all (map (keyed cxof) es)) (sym (add_known (keyed cxof e) qs (c id ∙ old))))
        | inr new ↦ rw new (
            add_all-new_of es m (id ∷ seen) (add (keyed cxof e) qs)
              (Covers-add (keyed cxof e) qs m seen c))
      ]

  -- Adding the selected entries under their ids, in the canonical view.
  pub add_ids-refines :
      (es : List Entry) (m : MemStore)
      → IsValid m
      → (view (add_ids cxof (map (entry_id cxof) es) es m) ≡ add_all (map (keyed cxof) es) (view m))
        × IsValid (add_ids cxof (map (entry_id cxof) es) es m)
  unfolding add_ids
  add_ids-refines [] m v = (refl, v)
  add_ids-refines (e ∷ es) m v =
      let id = entry_id cxof e in
      let (viewed, _, v') = add_locked-refines id e m v in
      let (ih, w) = add_ids-refines es (add_locked id e m).0 v' in
      (ih ∙ ap (add_all (map (keyed cxof) es)) viewed, w)

  pub Covers-view : (m : MemStore) → IsValid m → Covers (view m) m []
  unfolding has_entry has_id
  Covers-view m v x = sym (v.known x)
