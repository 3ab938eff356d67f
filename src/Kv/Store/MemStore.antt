-- ===== src/Kv/Store/MemStore.antt =====
-- kv/store/memstore.go. Each method holds the store's mutex throughout, so it is one step on the
-- state. The map `has` is the list of its keys. The hash of an entry and of the set are `cxof`'s.
pub mod Refines
pub mod Adds
pub mod Paging
pub mod Pages
pub mod Places
use Prim.Native.Nat.{compare, Ordering}
use repani.Base.{
  ℕ, suc, ◌+◌, ◌-◌, Bool, true, false, ◌||◌, ◌&&◌, List, [], ◌∷◌, ◌++◌, map, Bytes, length, take,
  drop, get_or, ltb, ◌==◌, if◌then◌else◌, compare_bytes, or_else, is_lt, is_eq, min, Option, none,
  some,
}
use repani.Base.Search.{binary_search}
use repani.Kv.Vault.Entry.{Entry, size}
use repani.Kv.Vault.Ids.{entry_id, set_hash_ids}
use repani.Kv.Store.Canonical.{has_id}

pub record MemStore : Type 0 where
  pub entries : List Entry
  pub ids : List Bytes
  pub has : List Bytes
  pub order : List ℕ
  pub set_hash : Bytes
  pub hash_set : Bool

-- NewMemStore
abbrev pub new_mem_store : MemStore
new_mem_store = record {
  entries = [];
  ids = [];
  has = [];
  order = [];
  set_hash = [];
  hash_set = false;
}

-- What an index out of range would read; every index in `order` is in range.
abbrev pub no_entry : Entry
no_entry = record { ts_ms = 0; nonce = []; ct = [] }

abbrev pub entry_at : MemStore → ℕ → Entry
entry_at m j = get_or m.entries j no_entry

abbrev pub id_at : MemStore → ℕ → Bytes
id_at m j = get_or m.ids j []

-- compare
unfoldable pub compare_at : MemStore → ℕ → Bytes → ℕ → Ordering
compare_at m ts id j = or_else (compare (entry_at m j).ts_ms ts) (compare_bytes (id_at m j) id)

-- The index with `i` added, by addLocked's two ways: at the end, or by binary search.
unfoldable pub place : (ℕ → Bool) → ℕ → List ℕ → List ℕ
place below i order =
    let n = length order in
    if n == 0 || below (get_or order (n - 1) 0)
    then order ++ i ∷ []
    else let at = binary_search below order in take at order ++ (i ∷ drop at order)

-- addLocked
unfoldable pub add_locked : Bytes → Entry → MemStore → MemStore × Bool
add_locked id e m =
    if has_id id m.has
    then (m, false)
    else let i = length m.entries in
      let m1 = record m {
        entries = m.entries ++ e ∷ [];
        ids = m.ids ++ id ∷ [];
        has = id ∷ m.has;
      } in
      let order = place (λ j. is_lt (compare_at m1 e.ts_ms id j)) i m.order in
      (record m1 { order = order; hash_set = false }, true)

-- Has
unfoldable pub has_entry : Bytes → MemStore → Bool
has_entry id m = has_id id m.has

-- Len
unfoldable pub len : MemStore → ℕ
len m = length m.entries

-- Sorted
unfoldable pub sorted : MemStore → List Entry
sorted m = map (entry_at m) m.order

-- Appended
unfoldable pub appended : ℕ → MemStore → List Entry
appended n m = drop (min n (length m.entries)) m.entries

-- Newest
unfoldable pub newest : MemStore → Option Entry
newest m =
    if length m.order == 0 then none else some (entry_at m (get_or m.order (length m.order - 1) 0))

-- The loop of EntriesAfter over the order from the cursor on.
unfoldable pub page_loop : MemStore → ℕ → List ℕ → List Entry → ℕ → List Entry
page_loop m budget [] out used = out
page_loop m budget (i ∷ is) out used =
    let sz = size (entry_at m i) in
    let rest = page_loop m budget is (out ++ entry_at m i ∷ []) (used + sz) in
    if ltb 0 (length out) && ltb budget (used + sz) then out else rest

-- The order from strictly after a cursor on, where `at` compares an index with the cursor.
unfoldable pub seek : (ℕ → Ordering) → List ℕ → List ℕ
seek at order =
    let start = binary_search (λ j. is_lt (at j)) order in
    let found = ltb start (length order) && is_eq (at (get_or order start 0)) in
    drop (if found then start + 1 else start) order

-- EntriesAfter
unfoldable pub entries_after : ℕ → Bytes → ℕ → MemStore → List Entry
unfolding page_loop seek
entries_after after_ts after_id budget m =
    page_loop m budget (seek (compare_at m after_ts after_id) m.order) [] 0

module _ (cxof : Bytes → Bytes → Bytes) where
  -- The loop of Add: the store, and the number added.
  unfoldable pub add_loop : List Entry → MemStore → ℕ → MemStore × ℕ
  add_loop [] m added = (m, added)
  add_loop (e ∷ es) m added =
      let r = add_locked (entry_id cxof e) e m in add_loop es r.0 (if r.1 then added + 1 else added)

  -- Add, which never fails in memory.
  unfoldable pub add : List Entry → MemStore → MemStore × ℕ
  unfolding add_loop
  add es m = add_loop es m 0

  -- SetHash, with the cache that it leaves.
  unfoldable pub set_hash : MemStore → MemStore × Bytes
  set_hash m =
      if m.hash_set
      then (m, m.set_hash)
      else let h = set_hash_ids cxof (map (id_at m) m.order) in
        (record m { set_hash = h; hash_set = true }, h)
