-- ===== src/Kv/Store/MemStore/Paging.antt =====
-- EntriesAfter against a scan of the canonical view, and what one page holds.
use Prim.Native.Nat.{Ordering, lt, eq, gt}
use repani.Base.{
  ℕ, suc, ◌+◌, ◌≡◌, ◌<◌, inl, inr, refl, sym, ap, ◌∙◌, Bool, true, false, ◌&&◌, List, [], ◌∷◌, ◌++◌,
  append_assoc, append-nil, length-append, map, Bytes, length, drop, get_or, ltb, All,
  if◌then◌else◌, Bool-cases, is_lt, is_eq, compare_bytes_refl, compare_bytes_swap,
  compare_bytes_trans, compare_bytes-eq, arith,
}
use repani.Base.Search.{count_while, binary_search-count_while}
use repani.Kv.Vault.Entry.{Entry, size}
use repani.Kv.Store.Canonical.{Keyed, compare_keyed, compare_keyed_trans, entries, IsSorted}
use repani.Kv.Store.MemStore.{MemStore, compare_at, entry_at, page_loop, seek, entries_after}
use repani.Kv.Store.MemStore.Refines.{view, keyed_at, IsValid}
use repani.Kv.Store.MemStore.Places.{Falls-sorted}

-- The entries strictly after a cursor.
unfoldable pub after : Keyed → List Keyed → List Keyed
after c [] = []
after c (q ∷ qs) = if is_lt (compare_keyed c q) then q ∷ after c qs else after c qs

compare_keyed_swap : (a b : Keyed) → compare_keyed a b ≡ gt → compare_keyed b a ≡ lt
unfolding compare_keyed
compare_keyed_swap a b h = ground (arith, compare_bytes_swap a.id b.id)

-- Keys that compare equal are below the same ones.
compare_keyed-eq-lt :
    (a b c : Keyed) → compare_keyed a b ≡ eq → compare_keyed a c ≡ lt → compare_keyed b c ≡ lt
unfolding compare_keyed
compare_keyed-eq-lt a b c h k = ground (arith, compare_bytes-eq a.id b.id)

not_above : (a b : Keyed) → compare_keyed a b ≡ lt → is_lt (compare_keyed b a) ≡ false
unfolding compare_keyed
not_above a b h = ground (arith, compare_bytes_trans a.id b.id a.id, compare_bytes_refl a.id)

not_above_eq : (a b : Keyed) → compare_keyed a b ≡ eq → is_lt (compare_keyed b a) ≡ false
unfolding compare_keyed
not_above_eq a b h = ground (arith, compare_bytes-eq a.id b.id, compare_bytes_refl a.id)

-- All of a list is after the cursor.
after-All : (c : Keyed) (qs : List Keyed) → All (λ q. compare_keyed c q ≡ lt) qs → after c qs ≡ qs
unfolding after
after-All c [] h = refl
after-All c (q ∷ qs) (h, hs) = rw h (ap (λ t. q ∷ t) (after-All c qs hs))

module _ (f : ℕ → Keyed) (c : Keyed) where
  abbrev at_c : ℕ → Ordering
  at_c j = compare_keyed (f j) c

  abbrev below_c : ℕ → Bool
  below_c j = is_lt (at_c j)

  abbrev found_at : List ℕ → ℕ → Bool
  found_at js s = ltb s (length js) && is_eq (at_c (get_or js s 0))

  abbrev scan : List ℕ → List ℕ
  scan js =
      drop
        (if found_at js (count_while below_c js)
          then count_while below_c js + 1
          else count_while below_c js)
        js

  found_at-suc : (j n : ℕ) (js : List ℕ) → found_at (j ∷ js) (suc n) ≡ found_at js n
  found_at-suc j n js = ground arith

  drop-suc :
      (b : Bool) (j n : ℕ) (js : List ℕ)
      → drop (if b then suc n + 1 else suc n) (j ∷ js) ≡ drop (if b then n + 1 else n) js
  drop-suc true j n js =
      ap (λ k. drop k (j ∷ js)) (let e : suc n + 1 ≡ suc (n + 1) = omega arith in e)
  drop-suc false j n js = refl

  -- An entry below the cursor is passed.
  scan_low : (j : ℕ) (js : List ℕ) → below_c j ≡ true → scan (j ∷ js) ≡ scan js
  unfolding count_while
  scan_low j js low =
      rw (low, found_at-suc j (count_while below_c js) js)
        (drop-suc (found_at js (count_while below_c js)) j (count_while below_c js) js)

  -- At the first entry that is not below it, the cursor's own entry is skipped too.
  scan_high :
      (o : Ordering) (j : ℕ) (js : List ℕ)
      → at_c j ≡ o
      → is_lt o ≡ false
      → scan (j ∷ js) ≡ (if is_eq o then js else j ∷ js)
  unfolding count_while
  scan_high lt j js e h = absurd (cc)
  scan_high eq j js e h =
      let not_below : below_c j ≡ false = ap is_lt e in
      let nonempty : ltb 0 (suc (length js)) ≡ true = ground arith in
      rw (not_below, e, nonempty) refl
  scan_high gt j js e h =
      let not_below : below_c j ≡ false = ap is_lt e in
      let nonempty : ltb 0 (suc (length js)) ≡ true = ground arith in
      rw (not_below, e, nonempty) refl

  later_after :
      (j : ℕ) (qs : List Keyed)
      → compare_keyed (f j) c ≡ eq
      → All (λ q. compare_keyed (f j) q ≡ lt) qs
      → All (λ q. compare_keyed c q ≡ lt) qs
  later_after j [] e h = tt
  later_after j (q ∷ qs) e (h, hs) = (compare_keyed-eq-lt (f j) c q e h, later_after j qs e hs)

  later_above :
      (j : ℕ) (qs : List Keyed)
      → compare_keyed c (f j) ≡ lt
      → All (λ q. compare_keyed (f j) q ≡ lt) qs
      → All (λ q. compare_keyed c q ≡ lt) qs
  later_above j [] e h = tt
  later_above j (q ∷ qs) e (h, hs) = (compare_keyed_trans c (f j) q e h, later_above j qs e hs)

  after_head :
      (o : Ordering) (j : ℕ) (js : List ℕ)
      → at_c j ≡ o
      → All (λ q. compare_keyed (f j) q ≡ lt) (map f js)
      → map f (scan js) ≡ after c (map f js)
      → map f (scan (j ∷ js)) ≡ after c (map f (j ∷ js))
  unfolding after
  after_head lt j js e h ih = rw (scan_low j js (ap is_lt e), not_above (f j) c e) ih
  after_head eq j js e h ih =
      rw (scan_high eq j js e refl, not_above_eq (f j) c e)
        (sym (after-All c (map f js) (later_after j (map f js) e h)))
  after_head gt j js e h ih =
      let above = compare_keyed_swap (f j) c e in
      rw (scan_high gt j js e refl, above)
        (ap (λ t. f j ∷ t) (sym (after-All c (map f js) (later_above j (map f js) above h))))

  map_drop_scan : (js : List ℕ) → IsSorted (map f js) → map f (scan js) ≡ after c (map f js)
  map_drop_scan [] s = unfold count_while after in refl
  map_drop_scan (j ∷ js) (h, s) = after_head (at_c j) j js refl h (map_drop_scan js s)

  pub seek-after : (js : List ℕ) → IsSorted (map f js) → map f (seek at_c js) ≡ after c (map f js)
  unfolding seek
  seek-after js s =
      rw (binary_search-count_while below_c js (Falls-sorted f c js s)) (map_drop_scan js s)

-- A page over entries: the first one, and then as many as fit the budget.
unfoldable pub page_rest : ℕ → ℕ → List Entry → List Entry
page_rest budget used [] = []
page_rest budget used (e ∷ es) =
    if ltb budget (used + size e) then [] else e ∷ page_rest budget (used + size e) es

unfoldable pub page : ℕ → List Entry → List Entry
unfolding page_rest
page budget [] = []
page budget (e ∷ es) = e ∷ page_rest budget (size e) es

module _ (m : MemStore) (budget : ℕ) where
  page_loop_rest :
      (js : List ℕ) (out : List Entry) (used : ℕ)
      → 0 < length out
      → page_loop m budget js out used ≡ out ++ page_rest budget used (map (entry_at m) js)
  unfolding page_loop page_rest
  page_loop_rest [] out used h = sym (append-nil out)
  page_loop_rest (j ∷ js) out used h =
      let started : ltb 0 (length out) ≡ true = ground arith in
      let more : 0 < length (out ++ entry_at m j ∷ []) =
        omega (arith, length-append out (entry_at m j ∷ [])) in
      elim (Bool-cases (ltb budget (used + size (entry_at m j)))) [
        | inl full ↦ rw (started, full) (sym (append-nil out))
        | inr fits ↦
            rw (started, fits)
              (page_loop_rest js (out ++ entry_at m j ∷ []) (used + size (entry_at m j)) more
                ∙ append_assoc out (entry_at m j ∷ []) _)
      ]

  page_loop-page : (js : List ℕ) → page_loop m budget js [] 0 ≡ page budget (map (entry_at m) js)
  unfolding page_loop page
  page_loop-page [] = refl
  page_loop-page (j ∷ js) =
      page_loop_rest js (entry_at m j ∷ []) (0 + size (entry_at m j)) (omega arith)
      ∙ ap (λ u. entry_at m j ∷ page_rest budget u (map (entry_at m) js))
          (let e : 0 + size (entry_at m j) ≡ size (entry_at m j) = omega arith in e)

entries_map : (m : MemStore) (js : List ℕ) → map (entry_at m) js ≡ entries (map (keyed_at m) js)
entries_map m [] = refl
entries_map m (j ∷ js) = ap (λ t. entry_at m j ∷ t) (entries_map m js)

abbrev pub cursor : ℕ → Bytes → Keyed
cursor ts id = record { id = id; entry = record { ts_ms = ts; nonce = []; ct = [] } }

seek_entries :
    (ts : ℕ) (id : Bytes) (m : MemStore)
    → IsValid m
    → map (entry_at m) (seek (compare_at m ts id) m.order) ≡ entries (after (cursor ts id) (view m))
unfolding compare_at compare_keyed
seek_entries ts id m v =
    entries_map m _ ∙ ap entries (seek-after (keyed_at m) (cursor ts id) m.order v.canonical)

-- EntriesAfter on a valid store returns one page of the canonical entries strictly after the cursor: what a scan of
-- the whole view would collect.
pub entries_after-page :
    (ts : ℕ) (id : Bytes) (budget : ℕ) (m : MemStore)
    → IsValid m
    → entries_after ts id budget m ≡ page budget (entries (after (cursor ts id) (view m)))
unfolding entries_after
entries_after-page ts id budget m v =
    page_loop-page m budget (seek (compare_at m ts id) m.order)
    ∙ ap (page budget) (seek_entries ts id m v)
