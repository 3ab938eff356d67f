-- ===== src/Lz4s/Costs.antt =====
-- The compressor's search: its fuel, and the subtraction in the gain of a match.
use repani.Base.{
  ℕ, zero, suc, ◌-◌, ◌≡◌, ◌≤◌, ◌<◌, inl, inr, refl, ◌&&◌, length, get_or, Bytes, ltb, Bool-cases,
  arith,
}
use repani.Lz4s.Table.{Table}
use repani.Lz4s.Encoder.{match_cost, search_chain, Best}
use repani.Lz4s.Matches.{IsChain}

-- A match of three bytes or more costs at most what it saves.
pub match_cost-le : (l dist : ℕ) → 3 ≤ l → match_cost l dist ≤ l
unfolding match_cost
match_cost-le l dist h = ground arith

-- The chain search does not depend on its fuel, once that is at least the first slot.
pub search_chain_fuel :
    (f g : ℕ) (src : Bytes) (t : Table) (pos lo c : ℕ) (b : Best)
    → IsChain pos t
    → c ≤ f
    → c ≤ g
    → search_chain f src t pos lo c b ≡ search_chain g src t pos lo c b
unfolding search_chain
search_chain_fuel zero zero src t pos lo c b h hf hg = refl
search_chain_fuel zero (suc g) src t pos lo c b h hf hg = ground arith
search_chain_fuel (suc f) zero src t pos lo c b h hf hg = ground arith
search_chain_fuel (suc f) (suc g) src t pos lo c b h hf hg =
    elim (Bool-cases (ltb lo c && ltb b.len (length src - pos))) [
      | inr over ↦ rw over refl
      | inl on ↦
          let some_slot : lo < c = ground arith in
          rw on (
            search_chain_fuel f g src t pos lo (get_or t.prev (c - 1) 0) _ h
              (omega (arith, h.links (c - 1))) (omega (arith, h.links (c - 1))))
    ]
