-- ===== src/Row/Int.antt =====
-- Go's int64 as an integer over the native naturals, and its two's complement.
use repani.Base.{ℕ, suc, ◌-◌, ◌^◌}

pub data ℤ : Type 0 where
  pos : ℕ → ℤ
  negsuc : ℕ → ℤ

-- The uint64 of an int64.
unfoldable pub uint64 : ℤ → ℕ
uint64 (pos n) = n
uint64 (negsuc n) = 2 ^ 64 - suc n
