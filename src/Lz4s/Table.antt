-- ===== src/Lz4s/Table.antt =====
-- lz4s/lz4s.go: the hash chain of Delta. A slot of `head` and of `prev` is one past a position, or 0.
use repani.Base.{
  ℕ, zero, suc, ◌+◌, ◌-◌, ◌*◌, ◌/◌, ◌%◌, ◌^◌, ◌&&◌, List, [], ◌∷◌, length, get_or, replicate, Bytes,
  ltb, leb, if◌then◌else◌,
}

pub record Table : Type 0 where
  pub head : List ℕ
  pub prev : List ℕ

-- Assignment to a slot.
unfoldable pub set_at : ℕ → ℕ → List ℕ → List ℕ
set_at i v [] = []
set_at zero v (x ∷ xs) = v ∷ xs
set_at (suc i) v (x ∷ xs) = x ∷ set_at i v xs

-- The loop for hashBits, from `bits` on; it ends at 16 at the latest.
unfoldable pub bits_loop : ℕ → ℕ → ℕ → ℕ
bits_loop zero bits n = bits
bits_loop (suc fuel) bits n =
    let more = bits_loop fuel (bits + 1) n in if ltb (2 ^ bits) n && ltb bits 16 then more else bits

unfoldable pub hash_bits : ℕ → ℕ
unfolding bits_loop
hash_bits n = bits_loop 6 10 n

-- hash, in uint32 arithmetic
unfoldable pub hash_at : Bytes → ℕ → ℕ
unfolding hash_bits
hash_at src i =
    let v = get_or src i 0 * 2 ^ 16 + get_or src (i + 1) 0 * 2 ^ 8 + get_or src (i + 2) 0 in
    v * 2654435761 % 2 ^ 32 / 2 ^ (32 - hash_bits (length src))

-- insert. A slot is an int32 of the source: the two agree while the base and the source together are
-- below 2 ^ 31 bytes.
unfoldable pub insert : Bytes → ℕ → Table → Table
unfolding hash_at set_at
insert src i t =
    if leb (i + 3) (length src)
    then (let h = hash_at src i in
        record { prev = set_at i (get_or t.head h 0) t.prev; head = set_at h (i + 1) t.head })
    else t

-- insert at `n` positions from `i` on.
unfoldable pub insert_from : Bytes → ℕ → ℕ → Table → Table
unfolding insert
insert_from src i zero t = t
insert_from src i (suc n) t = insert_from src (i + 1) n (insert src i t)

unfoldable pub new_table : Bytes → Table
unfolding hash_bits
new_table src = record {
  head = replicate (2 ^ hash_bits (length src)) 0;
  prev = replicate (length src) 0;
}
