-- ===== src/Kv/Client/Positions.antt =====
-- The order of positions that kv/client's posAfter tests.
use Prim.Native.Nat.{Ordering, lt, eq, gt}
use repani.Base.{
  ℕ, ◌≡◌, refl, true, false, Bytes, compare_bytes, compare_bytes_refl, compare_bytes-eq,
  compare_bytes_trans, compare_bytes_swap, arith,
}
use repani.Kv.Client.View.{pos_after, is_gt}

compare_bytes_flip : (a b : Bytes) → compare_bytes a b ≡ lt → compare_bytes b a ≡ gt
compare_bytes_flip a b h = go (compare_bytes b a) refl
  where
    go : (o : Ordering) → compare_bytes b a ≡ o → compare_bytes b a ≡ gt
    go lt e = absurd (cc (compare_bytes_trans a b a h e, compare_bytes_refl a))
    go eq e = absurd (cc (compare_bytes-eq b a e, compare_bytes_refl a, h))
    go gt e = e

gt_trans :
    (a b c : Bytes) → compare_bytes a b ≡ gt → compare_bytes b c ≡ gt → compare_bytes a c ≡ gt
gt_trans a b c h k =
    compare_bytes_flip c a
      (compare_bytes_trans c b a (compare_bytes_swap b c k) (compare_bytes_swap a b h))

pub pos_after_irrefl : (ts : ℕ) (id : Bytes) → pos_after ts id ts id ≡ false
unfolding pos_after
pos_after_irrefl ts id = ground (arith, compare_bytes_refl id)

pub pos_after_trans :
    (t1 t2 t3 : ℕ) (a b c : Bytes)
    → pos_after t1 a t2 b ≡ true
    → pos_after t2 b t3 c ≡ true
    → pos_after t1 a t3 c ≡ true
unfolding pos_after
pos_after_trans t1 t2 t3 a b c h k = ground (arith, gt_trans a b c)

same_id :
    (a b : Bytes) → is_gt (compare_bytes a b) ≡ false → is_gt (compare_bytes b a) ≡ false → a ≡ b
same_id a b h k = go (compare_bytes a b) refl
  where
    go : (o : Ordering) → compare_bytes a b ≡ o → a ≡ b
    go lt e = absurd (ground (arith, compare_bytes_flip a b e))
    go eq e = compare_bytes-eq a b e
    go gt e = absurd (ground arith)

-- Two positions of which neither is after the other are one.
pub same_position :
    (t1 t2 : ℕ) (a b : Bytes) → pos_after t1 a t2 b ≡ false → pos_after t2 b t1 a ≡ false → a ≡ b
unfolding pos_after
same_position t1 t2 a b h k = ground (arith, same_id a b)
