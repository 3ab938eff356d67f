-- ===== src/Kv/Store/Canonical.antt =====
-- The Store contract of kv/store/store.go as a mathematical object: a list of entries with their
-- ids, strictly sorted by (TsMs, EntryID), into which a new id is inserted and a known one is not.
pub mod Unique
use Prim.Native.Nat.{compare, Ordering, lt, eq, gt}
use repani.Base.{
  ℕ, ◌≡◌, refl, Bool, true, false, ◌||◌, List, [], ◌∷◌, ◌++◌, All, Bytes, compare_bytes,
  compare_bytes_trans, compare_bytes-eq, compare_bytes_refl, compare_bytes_swap, ◌↔◌, or_else,
  is_lt, is_eq, if◌then◌else◌, Bool-cases, inl, inr, arith,
}
use repani.Kv.Vault.Entry.{Entry}

pub record Keyed : Type 0 where
  pub id : Bytes
  pub entry : Entry

-- (TsMs asc, EntryID asc)
unfoldable pub compare_keyed : Keyed → Keyed → Ordering
compare_keyed a b = or_else (compare a.entry.ts_ms b.entry.ts_ms) (compare_bytes a.id b.id)

pub compare_keyed_trans :
    (a b c : Keyed) → compare_keyed a b ≡ lt → compare_keyed b c ≡ lt → compare_keyed a c ≡ lt
unfolding compare_keyed
compare_keyed_trans a b c h k = ground (arith, compare_bytes_trans a.id b.id c.id)

pub bytes_eq : Bytes → Bytes → Bool
bytes_eq a b = is_eq (compare_bytes a b)

unfoldable pub has_id : Bytes → List Bytes → Bool
unfolding bytes_eq
has_id id [] = false
has_id id (x ∷ xs) = bytes_eq x id || has_id id xs

pub has_id-cons :
    (id x : Bytes) (xs : List Bytes) → has_id id (x ∷ xs) ≡ (bytes_eq x id || has_id id xs)
unfolding has_id
has_id-cons id x xs = refl

abbrev pub ids : List Keyed → List Bytes
ids [] = []
ids (k ∷ ks) = k.id ∷ ids ks

abbrev pub entries : List Keyed → List Entry
entries [] = []
entries (k ∷ ks) = k.entry ∷ entries ks

abbrev pub IsSorted : List Keyed → Type 0
IsSorted [] = Unit
IsSorted (k ∷ ks) = All (λ q. compare_keyed k q ≡ lt) ks × IsSorted ks

-- Insertion at the canonical place.
unfoldable pub insert : Keyed → List Keyed → List Keyed
insert k [] = k ∷ []
insert k (q ∷ qs) = if is_lt (compare_keyed q k) then q ∷ insert k qs else k ∷ q ∷ qs

-- What Add promises for one entry.
unfoldable pub add : Keyed → List Keyed → List Keyed
unfolding insert has_id
add k qs = if has_id k.id (ids qs) then qs else insert k qs

All-insert :
    (P : Keyed → Type 0) (k : Keyed) (qs : List Keyed) → P k → All P qs → All P (insert k qs)
unfolding insert
All-insert P k [] h hs = (h, tt)
All-insert P k (q ∷ qs) h (hq, hqs) = elim (Bool-cases (is_lt (compare_keyed q k))) [
  | inl e ↦ rw e (hq, All-insert P k qs h hqs)
  | inr e ↦ rw e (h, (hq, hqs))
]

-- An entry that is not below another, and has another id, is above it.
above_of_not_below :
    (k q : Keyed)
    → is_lt (compare_keyed q k) ≡ false
    → bytes_eq q.id k.id ≡ false
    → compare_keyed k q ≡ lt
unfolding compare_keyed bytes_eq
above_of_not_below k q h n = ground (arith, compare_bytes_swap q.id k.id)

All-above :
    (k q : Keyed) (qs : List Keyed)
    → compare_keyed k q ≡ lt
    → All (λ x. compare_keyed q x ≡ lt) qs
    → All (λ x. compare_keyed k x ≡ lt) qs
All-above k q [] h hs = tt
All-above k q (x ∷ xs) h (hx, hs) = (compare_keyed_trans k q x h hx, All-above k q xs h hs)

pub insert-IsSorted :
    (k : Keyed) (qs : List Keyed)
    → has_id k.id (ids qs) ≡ false
    → IsSorted qs
    → IsSorted (insert k qs)
unfolding insert has_id
insert-IsSorted k [] n s = (tt, tt)
insert-IsSorted k (q ∷ qs) n (hq, s) = elim (Bool-cases (is_lt (compare_keyed q k))) [
  | inl e ↦ rw e (
    All-insert (λ x. compare_keyed q x ≡ lt) k qs (ground arith) hq,
    insert-IsSorted k qs (ground arith) s,
  )
  | inr e ↦
      let h = above_of_not_below k q e (ground arith) in rw e ((h, All-above k q qs h hq), (hq, s))
]

-- Adding keeps the canonical order, without duplicates.
pub add-IsSorted : (k : Keyed) (qs : List Keyed) → IsSorted qs → IsSorted (add k qs)
unfolding add
add-IsSorted k qs s = elim (Bool-cases (has_id k.id (ids qs))) [
  | inl old ↦ rw old s
  | inr new ↦ rw new (insert-IsSorted k qs new s)
]

pub has_id-insert :
    (id : Bytes) (k : Keyed) (qs : List Keyed)
    → has_id id (ids (insert k qs)) ≡ (bytes_eq k.id id || has_id id (ids qs))
unfolding insert has_id
has_id-insert id k [] = refl
has_id-insert id k (q ∷ qs) = ground (arith, has_id-insert id k qs)

pub bytes_eq_iff : (a b : Bytes) → (bytes_eq a b ≡ true) ↔ (a ≡ b)
unfolding bytes_eq
bytes_eq_iff a b =
    (λ h. compare_bytes-eq a b (ground arith), λ e. rw (← e, compare_bytes_refl a) refl)

-- The ids held after an add: the new one and those before it.
pub has_id-add :
    (id : Bytes) (k : Keyed) (qs : List Keyed)
    → has_id id (ids (add k qs)) ≡ (bytes_eq k.id id || has_id id (ids qs))
unfolding add
has_id-add id k qs = elim (Bool-cases (has_id k.id (ids qs))) [
  | inr new ↦ rw new (has_id-insert id k qs)
  | inl old ↦ rw old (elim (Bool-cases (bytes_eq k.id id)) [
    | inl same ↦ rw same (rw ((bytes_eq_iff k.id id).0 same) at old)
    | inr other ↦ rw other refl
  ])
]
