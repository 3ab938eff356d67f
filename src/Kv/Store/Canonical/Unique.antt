-- ===== src/Kv/Store/Canonical/Unique.antt =====
-- A strictly sorted list is determined by its members, so replicas that hold the same entries have
-- the same canonical view, whatever the order in which the entries arrived.
use Prim.Native.Nat.{lt, eq}
use repani.Base.{
  ◌≡◌, ◌⊎◌, ◌↔◌, inl, inr, refl, sym, ◌∙◌, true, List, [], ◌∷◌, All, Bytes, compare_bytes_refl,
  is_lt, Bool-cases, arith,
}
use repani.Kv.Store.Canonical.{
  Keyed, compare_keyed, compare_keyed_trans, bytes_eq, bytes_eq_iff, has_id, ids, IsSorted, insert,
  add, add-IsSorted,
}

abbrev pub Holds : Keyed → List Keyed → Type 0
Holds k [] = ⊥
Holds k (q ∷ qs) = (k ≡ q) ⊎ Holds k qs

compare_keyed_refl : (k : Keyed) → compare_keyed k k ≡ eq
unfolding compare_keyed
compare_keyed_refl k = ground (arith, compare_bytes_refl k.id)

All-Holds :
    (k x : Keyed) (qs : List Keyed)
    → All (λ q. compare_keyed k q ≡ lt) qs
    → Holds x qs
    → compare_keyed k x ≡ lt
All-Holds k x [] h m = absurd m
All-Holds k x (q ∷ qs) (h, hs) (inl e) = rw e h
All-Holds k x (q ∷ qs) (h, hs) (inr m) = All-Holds k x qs hs m

not_below_itself : (k : Keyed) → compare_keyed k k ≡ lt → ⊥
not_below_itself k h = cc (compare_keyed_refl k)

not_both : (a b : Keyed) → compare_keyed a b ≡ lt → compare_keyed b a ≡ lt → ⊥
not_both a b h k = not_below_itself a (compare_keyed_trans a b a h k)

same_head :
    (x y : Keyed) (xs ys : List Keyed)
    → All (λ q. compare_keyed x q ≡ lt) xs
    → All (λ q. compare_keyed y q ≡ lt) ys
    → Holds x (y ∷ ys)
    → Holds y (x ∷ xs)
    → x ≡ y
same_head x y xs ys hx hy (inl e) n = e
same_head x y xs ys hx hy (inr m) (inl e) = sym e
same_head x y xs ys hx hy (inr m) (inr n) =
    absurd (not_both x y (All-Holds x y xs hx n) (All-Holds y x ys hy m))

-- A member of a sorted tail stays a member when the equal heads are taken off.
into_tail :
    (k x y : Keyed) (xs ys : List Keyed)
    → x ≡ y
    → All (λ q. compare_keyed x q ≡ lt) xs
    → Holds k xs
    → Holds k (y ∷ ys)
    → Holds k ys
into_tail k x y xs ys e hx m (inr n) = n
into_tail k x y xs ys e hx m (inl f) =
    absurd (not_below_itself x (rw (let g : k ≡ x = f ∙ sym e in g) at (All-Holds x k xs hx m)))

-- Two strictly sorted lists with the same members are equal.
pub sorted_unique :
    (xs ys : List Keyed)
    → IsSorted xs
    → IsSorted ys
    → ((k : Keyed) → Holds k xs ↔ Holds k ys)
    → xs ≡ ys
sorted_unique [] [] sx sy h = refl
sorted_unique [] (y ∷ ys) sx sy h = absurd ((h y).1 (inl refl))
sorted_unique (x ∷ xs) [] sx sy h = absurd ((h x).0 (inl refl))
sorted_unique (x ∷ xs) (y ∷ ys) (hx, sx) (hy, sy) h =
    let e : x ≡ y = same_head x y xs ys hx hy ((h x).0 (inl refl)) ((h y).1 (inl refl)) in
    let tails : xs ≡ ys = sorted_unique xs ys sx sy (λ k. (
      λ m. into_tail k x y xs ys e hx m ((h k).0 (inr m)),
      λ m. into_tail k y x ys xs (sym e) hy m ((h k).1 (inr m)),
    )) in
    cc

Holds-insert : (x k : Keyed) (qs : List Keyed) → Holds x (insert k qs) ↔ Holds x (k ∷ qs)
unfolding insert
Holds-insert x k [] = (λ m. m, λ m. m)
Holds-insert x k (q ∷ qs) =
    let (to, from) = Holds-insert x k qs in
    elim (Bool-cases (is_lt (compare_keyed q k))) [
      | inl e ↦ rw e (ground arith, ground arith)
      | inr e ↦ rw e (λ m. m, λ m. m)
    ]

-- Ids that clash belong to one and the same keyed entry.
abbrev pub NoCollision : List Keyed → Type 0
NoCollision ks = (a b : Keyed) → Holds a ks → Holds b ks → a.id ≡ b.id → a ≡ b

has_id-Holds :
    (id : Bytes) (qs : List Keyed)
    → has_id id (ids qs) ≡ true
    → (q : Keyed) × Holds q qs × (q.id ≡ id)
unfolding has_id
has_id-Holds id [] h = absurd (cc)
has_id-Holds id (q ∷ qs) h = elim (Bool-cases (bytes_eq q.id id)) [
  | inl e ↦ (q, inl refl, (bytes_eq_iff q.id id).0 e)
  | inr e ↦ let (x, m, i) = has_id-Holds id qs (rw e at h) in (x, inr m, i)
]

abbrev pub add_all : List Keyed → List Keyed → List Keyed
add_all [] qs = qs
add_all (k ∷ ks) qs = add_all ks (add k qs)

pub add_all-IsSorted : (ks qs : List Keyed) → IsSorted qs → IsSorted (add_all ks qs)
add_all-IsSorted [] qs s = s
add_all-IsSorted (k ∷ ks) qs s = add_all-IsSorted ks (add k qs) (add-IsSorted k qs s)

-- `add` holds its argument and what was there; an old id brings nothing, as its entry is there.
Holds-add :
    (x k : Keyed) (qs : List Keyed)
    → ((b : Keyed) → Holds b qs → b.id ≡ k.id → b ≡ k)
    → Holds x (add k qs) ↔ Holds x (k ∷ qs)
unfolding add
Holds-add x k qs no_clash = elim (Bool-cases (has_id k.id (ids qs))) [
  | inr new ↦ rw new (Holds-insert x k qs)
  | inl old ↦
      let (b, m, i) = has_id-Holds k.id qs old in
      let there : Holds k qs = rw (no_clash b m i) at m in
      rw old (λ n. inr n, λ n. elim n [ inl e ↦ rw e there | inr n' ↦ n' ])
]

abbrev InEither : Keyed → List Keyed → List Keyed → Type 0
InEither x ks qs = Holds x ks ⊎ Holds x qs

abbrev ClashFree : List Keyed → List Keyed → Type 0
ClashFree ks qs = (a b : Keyed) → InEither a ks qs → InEither b ks qs → a.id ≡ b.id → a ≡ b

-- A member of the rest, or of the list after an add, was a member before.
before_add :
    (x k : Keyed) (ks qs : List Keyed)
    → ClashFree (k ∷ ks) qs
    → InEither x ks (add k qs)
    → InEither x (k ∷ ks) qs
before_add x k ks qs c (inl m) = inl (inr m)
before_add x k ks qs c (inr m) =
    elim ((Holds-add x k qs (λ b n. c b k (inr n) (inl (inl refl)))).0 m) [
      | inl e ↦ inl (inl e)
      | inr n ↦ inr n
    ]

after_add :
    (x k : Keyed) (ks qs : List Keyed)
    → ClashFree (k ∷ ks) qs
    → InEither x (k ∷ ks) qs
    → InEither x ks (add k qs)
after_add x k ks qs c (inl (inr m)) = inl m
after_add x k ks qs c (inl (inl e)) =
    inr ((Holds-add x k qs (λ b n. c b k (inr n) (inl (inl refl)))).1 (inl e))
after_add x k ks qs c (inr m) =
    inr ((Holds-add x k qs (λ b n. c b k (inr n) (inl (inl refl)))).1 (inr m))

Holds-add_all :
    (x : Keyed) (ks qs : List Keyed) → ClashFree ks qs → Holds x (add_all ks qs) ↔ InEither x ks qs
Holds-add_all x [] qs c = (λ m. inr m, λ m. elim m [ inl n ↦ absurd n | inr n ↦ n ])
Holds-add_all x (k ∷ ks) qs c =
    let c' : ClashFree ks (add k qs) =
      λ a b m n i. c a b (before_add a k ks qs c m) (before_add b k ks qs c n) i in
    let (to, from) = Holds-add_all x ks (add k qs) c' in
    (λ m. before_add x k ks qs c (to m), λ m. from (after_add x k ks qs c m))

from_empty : (x : Keyed) (ks : List Keyed) → InEither x ks [] → Holds x ks
from_empty x ks (inl m) = m
from_empty x ks (inr m) = absurd m

-- The added entries are the members of the view, when no two of them clash.
pub add_all_members :
    (ks : List Keyed) → NoCollision ks → (x : Keyed) → Holds x (add_all ks []) ↔ Holds x ks
add_all_members ks c x =
    let (to, from) =
      Holds-add_all x ks [] (λ a b m n i. c a b (from_empty a ks m) (from_empty b ks n) i) in
    (λ m. from_empty x ks (to m), λ m. from (inl m))

-- Two sequences of adds with the same members, none of which clash, end in the same list.
pub add_all_converges :
    (ks js : List Keyed)
    → NoCollision ks
    → ((k : Keyed) → Holds k ks ↔ Holds k js)
    → add_all ks [] ≡ add_all js []
add_all_converges ks js c same =
    let c' : NoCollision js = λ a b m n i. c a b ((same a).1 m) ((same b).1 n) i in
    sorted_unique (add_all ks []) (add_all js []) (add_all-IsSorted ks [] tt)
      (add_all-IsSorted js [] tt)
      λ k. (
        λ m. (add_all_members js c' k).1 ((same k).0 ((add_all_members ks c k).0 m)),
        λ m. (add_all_members ks c k).1 ((same k).1 ((add_all_members js c' k).0 m)),
      )
