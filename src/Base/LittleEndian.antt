-- ===== src/Base/LittleEndian.antt =====
-- Bytes, and the little-endian integers of encoding/binary.
use mathlib.Core.Path.{◌≡◌, refl, ap}
use mathlib.Core.List.{List, [], ◌∷◌}
use Prim.Native.Nat.{ℕ, zero, suc, ◌+◌, ◌*◌, ◌/◌, ◌%◌, ◌^◌, ◌<◌}
use native.Mathlib.Nat.{pow-suc}
use native.Mathlib.Omega.{arith}
use package.repani.Base.Lists.{length, All}

abbrev pub Bytes : Type 0
Bytes = List ℕ

abbrev pub IsByte : ℕ → Type 0
IsByte b = b < 256

-- PutUint16, PutUint32 and PutUint64 for w = 2, 4 and 8.
unfoldable pub put_le : ℕ → ℕ → Bytes
put_le zero v = []
put_le (suc w) v = (v % 256) ∷ put_le w (v / 256)

-- Uint16, Uint32 and Uint64 of a slice of 2, 4 and 8 bytes.
unfoldable pub get_le : Bytes → ℕ
get_le [] = 0
get_le (b ∷ bs) = b + 256 * get_le bs

pub length-put_le : (w v : ℕ) → length (put_le w v) ≡ w
unfolding put_le
length-put_le zero v = refl
length-put_le (suc w) v = ap suc (length-put_le w (v / 256))

pub put_le-IsByte : (w v : ℕ) → All IsByte (put_le w v)
unfolding put_le
put_le-IsByte zero v = tt
put_le-IsByte (suc w) v = (omega arith, put_le-IsByte w (v / 256))

pub get_le-put_le : (w v : ℕ) → v < 256 ^ w → get_le (put_le w v) ≡ v
unfolding put_le get_le
get_le-put_le zero v h = omega arith
get_le-put_le (suc w) v h = omega (arith, get_le-put_le w (v / 256) (omega (arith, pow-suc 256 w)))

pub get_le-lt : (w : ℕ) (bs : Bytes) → All IsByte bs → length bs ≡ w → get_le bs < 256 ^ w
unfolding get_le
get_le-lt zero [] h e = omega arith
get_le-lt (suc w) [] h e = absurd (omega arith)
get_le-lt zero (b ∷ bs) h e = absurd (omega arith)
get_le-lt (suc w) (b ∷ bs) (h, hs) e = omega (arith, get_le-lt w bs hs (omega arith), pow-suc 256 w)

pub put_le-get_le : (w : ℕ) (bs : Bytes) → All IsByte bs → length bs ≡ w → put_le w (get_le bs) ≡ bs
unfolding put_le get_le
put_le-get_le zero [] h e = refl
put_le-get_le zero (b ∷ bs) h e = absurd (omega arith)
put_le-get_le (suc w) [] h e = absurd (omega arith)
put_le-get_le (suc w) (b ∷ bs) (h, hs) e =
    let low : (b + 256 * get_le bs) % 256 ≡ b = omega arith in
    let high : (b + 256 * get_le bs) / 256 ≡ get_le bs = omega arith in
    rw (low, high) (ap (λ t. b ∷ t) (put_le-get_le w bs hs (omega arith)))
