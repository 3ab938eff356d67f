-- ===== src/Base/Ordering.antt =====
-- Go's cmp.Compare on integers and bytes.Compare, as three-way orderings, and their laws.
use Prim.Native.Nat.{compare, Ordering, lt, eq, gt}
use mathlib.Core.Path.{◌≡◌, refl}
use mathlib.Core.Bool.{Bool, true, false}
use mathlib.Core.List.{[], ◌∷◌}
use native.Mathlib.Omega.{arith}
use package.repani.Base.LittleEndian.{Bytes}

-- `if c := cmp.Compare(a, b); c != 0 { return c }; return o`
abbrev pub or_else : Ordering → Ordering → Ordering
or_else eq o = o
or_else lt o = lt
or_else gt o = gt

abbrev pub is_lt : Ordering → Bool
is_lt lt = true
is_lt eq = false
is_lt gt = false

abbrev pub is_eq : Ordering → Bool
is_eq eq = true
is_eq lt = false
is_eq gt = false

-- bytes.Compare
unfoldable pub compare_bytes : Bytes → Bytes → Ordering
compare_bytes [] [] = eq
compare_bytes [] (b ∷ bs) = lt
compare_bytes (a ∷ as') [] = gt
compare_bytes (a ∷ as') (b ∷ bs) = or_else (compare a b) (compare_bytes as' bs)

pub compare_bytes_refl : (a : Bytes) → compare_bytes a a ≡ eq
unfolding compare_bytes
compare_bytes_refl [] = refl
compare_bytes_refl (a ∷ as') = ground (arith, compare_bytes_refl as')

pub compare_bytes-eq : (a b : Bytes) → compare_bytes a b ≡ eq → a ≡ b
unfolding compare_bytes
compare_bytes-eq [] [] h = refl
compare_bytes-eq [] (b ∷ bs) h = absurd (ground arith)
compare_bytes-eq (a ∷ as') [] h = absurd (ground arith)
compare_bytes-eq (a ∷ as') (b ∷ bs) h = ground (arith, compare_bytes-eq as' bs)

pub compare_bytes_trans :
    (a b c : Bytes) → compare_bytes a b ≡ lt → compare_bytes b c ≡ lt → compare_bytes a c ≡ lt
unfolding compare_bytes
compare_bytes_trans [] [] c h k = absurd (ground arith)
compare_bytes_trans [] (b ∷ bs) [] h k = absurd (ground arith)
compare_bytes_trans [] (b ∷ bs) (c ∷ cs) h k = refl
compare_bytes_trans (a ∷ as') [] c h k = absurd (ground arith)
compare_bytes_trans (a ∷ as') (b ∷ bs) [] h k = absurd (ground arith)
compare_bytes_trans (a ∷ as') (b ∷ bs) (c ∷ cs) h k = ground (arith, compare_bytes_trans as' bs cs)

pub compare_bytes_swap : (a b : Bytes) → compare_bytes a b ≡ gt → compare_bytes b a ≡ lt
unfolding compare_bytes
compare_bytes_swap [] [] h = absurd (ground arith)
compare_bytes_swap [] (b ∷ bs) h = absurd (ground arith)
compare_bytes_swap (a ∷ as') [] h = refl
compare_bytes_swap (a ∷ as') (b ∷ bs) h = ground (arith, compare_bytes_swap as' bs)
