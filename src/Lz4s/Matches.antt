-- ===== src/Lz4s/Matches.antt =====
-- What the hash chain of Delta finds: its links point back, and a match is one.
use repani.Base.{
  ℕ, zero, suc, ◌+◌, ◌-◌, ◌^◌, ◌≡◌, ◌≤◌, ◌<◌, ◌⊎◌, inl, inr, refl, ap, ◌∙◌, ◌&&◌, List, [], ◌∷◌,
  length, get_or, replicate, All, Bytes, ltb, leb, ◌==◌, Bool-cases, arith, tests,
}
use repani.Lz4s.Table.{Table, set_at, insert, insert_from, new_table, hash_at, hash_bits}
use repani.Lz4s.Encoder.{Best, common_length, match_cost, try_candidate, search_chain, find_match}

-- Every slot of `head` is one past a position below `n`, and every link leads back.
pub record IsChain (n : ℕ) (t : Table) : Type 0 where
  pub heads : All (λ h. h ≤ n) t.head
  pub links : (i : ℕ) → get_or t.prev i 0 ≤ i

get_or-All : (n h : ℕ) (xs : List ℕ) → All (λ x. x ≤ n) xs → get_or xs h 0 ≤ n
get_or-All n h [] a = omega arith
get_or-All n zero (x ∷ xs) (a, rest) = a
get_or-All n (suc h) (x ∷ xs) (a, rest) = get_or-All n h xs rest

set_at-All :
    (n i v : ℕ) (xs : List ℕ) → v ≤ n → All (λ x. x ≤ n) xs → All (λ x. x ≤ n) (set_at i v xs)
unfolding set_at
set_at-All n i v [] h a = tt
set_at-All n zero v (x ∷ xs) h (a, rest) = (h, rest)
set_at-All n (suc i) v (x ∷ xs) h (a, rest) = (a, set_at-All n i v xs h rest)

get_or-set_at :
    (i j v : ℕ) (xs : List ℕ)
    → (get_or (set_at i v xs) j 0 ≡ get_or xs j 0) ⊎ ((j ≡ i) × (get_or (set_at i v xs) j 0 ≡ v))
unfolding set_at
get_or-set_at i j v [] = inl refl
get_or-set_at zero zero v (x ∷ xs) = inr (refl, refl)
get_or-set_at zero (suc j) v (x ∷ xs) = inl refl
get_or-set_at (suc i) zero v (x ∷ xs) = inl refl
get_or-set_at (suc i) (suc j) v (x ∷ xs) = elim (get_or-set_at i j v xs) [
  | inl same ↦ inl same
  | inr (at, new) ↦ inr (ap suc at, new)
]

All-later : (n : ℕ) (xs : List ℕ) → All (λ x. x ≤ n) xs → All (λ x. x ≤ n + 1) xs
All-later n [] a = tt
All-later n (x ∷ xs) (a, rest) = (omega arith, All-later n xs rest)

insert-IsChain : (src : Bytes) (i : ℕ) (t : Table) → IsChain i t → IsChain (i + 1) (insert src i t)
unfolding insert
insert-IsChain src i t c =
    let h = hash_at src i in
    let later = All-later i t.head c.heads in
    elim (Bool-cases (leb (i + 3) (length src))) [
      | inl room ↦ rw room (record {
        heads = set_at-All (i + 1) h (i + 1) t.head (omega arith) later;
        links = λ j. elim (get_or-set_at i j (get_or t.head h 0) t.prev) [
          | inl same ↦ omega (arith, same, c.links j)
          | inr (at, new) ↦ omega (arith, at, new, get_or-All i h t.head c.heads)
        ];
      })
      | inr none_left ↦ rw none_left (record { heads = later; links = c.links })
    ]

pub insert_from-IsChain :
    (src : Bytes) (i n : ℕ) (t : Table) → IsChain i t → IsChain (i + n) (insert_from src i n t)
unfolding insert_from
insert_from-IsChain src i zero t c = rw (let e : i + 0 ≡ i = omega arith in e) c
insert_from-IsChain src i (suc n) t c =
    rw (let e : i + suc n ≡ i + 1 + n = omega arith in e)
      (insert_from-IsChain src (i + 1) n (insert src i t) (insert-IsChain src i t c))

pub insert-step : (src : Bytes) (i : ℕ) (t : Table) → IsChain i t → IsChain (i + 1) (insert src i t)
insert-step src i t c = insert-IsChain src i t c

All-replicate : (n k : ℕ) → All (λ x. x ≤ n) (replicate k 0)
All-replicate n zero = tt
All-replicate n (suc k) = (omega arith, All-replicate n k)

get_or-replicate : (k i : ℕ) → ◌≡◌ {A = ℕ} (get_or (replicate k 0) i 0) 0
get_or-replicate zero i = refl
get_or-replicate (suc k) zero = refl
get_or-replicate (suc k) (suc i) = get_or-replicate k i

pub new_table-IsChain : (src : Bytes) → IsChain 0 (new_table src)
unfolding new_table
new_table-IsChain src = record {
  heads = All-replicate 0 (2 ^ hash_bits (length src));
  links = λ i. omega (arith, get_or-replicate (length src) i);
}

-- The same bytes at two places.
abbrev pub Agrees : Bytes → ℕ → ℕ → ℕ → Type 0
Agrees src a b n = (j : ℕ) → j < n → get_or src (a + j) 0 ≡ get_or src (b + j) 0

-- A match for position `pos` that the format can express.
pub record IsMatch (src : Bytes) (pos : ℕ) (b : Best) : Type 0 where
  pub long : 3 ≤ b.len
  pub back : 1 ≤ b.dist
  pub near : b.dist ≤ 65536
  pub held : b.dist ≤ pos
  pub fits : pos + b.len ≤ length src
  pub agrees : Agrees src (pos - b.dist) pos b.len

abbrev pub IsGood : Bytes → ℕ → Best → Type 0
IsGood src pos b = 0 < b.gain → IsMatch src pos b

Agrees-suc :
    (src : Bytes) (a b n : ℕ)
    → get_or src a 0 ≡ get_or src b 0
    → Agrees src (a + 1) (b + 1) n
    → Agrees src a b (suc n)
Agrees-suc src a b n e h zero l =
    ap (λ i. get_or src i 0) (let z : a + 0 ≡ a = omega arith in z)
    ∙ e
    ∙ ap (λ i. get_or src i 0) (let z : b ≡ b + 0 = omega arith in z)
Agrees-suc src a b n e h (suc j) l =
    ap (λ i. get_or src i 0) (let z : a + suc j ≡ a + 1 + j = omega arith in z)
    ∙ h j (omega arith)
    ∙ ap (λ i. get_or src i 0) (let z : b + 1 + j ≡ b + suc j = omega arith in z)

common_length-Agrees :
    (src : Bytes) (cand pos n : ℕ)
    → (common_length src cand pos n ≤ n) × Agrees src cand pos (common_length src cand pos n)
unfolding common_length
common_length-Agrees src cand pos zero = (omega arith, λ j h. absurd (omega arith))
common_length-Agrees src cand pos (suc n) =
    let (at_most, agrees) = common_length-Agrees src (cand + 1) (pos + 1) n in
    elim (Bool-cases (get_or src cand 0 == get_or src pos 0)) [
      | inl same ↦ rw same (omega arith, Agrees-suc src cand pos _ (ground arith) agrees)
      | inr other ↦ rw other (omega arith, λ j h. absurd (omega arith))
    ]

-- A candidate behind `pos`, and within reach, keeps the best match good.
try_candidate-IsGood :
    (src : Bytes) (pos cand : ℕ) (b : Best)
    → cand < pos
    → pos ≤ cand + 65536
    → pos ≤ length src
    → IsGood src pos b
    → IsGood src pos (try_candidate src pos (length src - pos) cand b)
unfolding try_candidate
try_candidate-IsGood src pos cand b before reach inside good =
    let l = common_length src cand pos (length src - pos) in
    let (at_most, agrees) = common_length-Agrees src cand pos (length src - pos) in
    elim (Bool-cases (get_or src (cand + b.len) 0 == get_or src (pos + b.len) 0)) [
      | inr differs ↦ rw differs good
      | inl same ↦ elim (Bool-cases (ltb l 3)) [
        | inl short ↦ rw (same, short) good
        | inr long ↦ elim (Bool-cases (ltb b.gain (l - match_cost l (pos - cand)))) [
          | inr worse ↦ rw (same, long, worse) good
          | inl better ↦
              rw (same, long, better)
                (λ h. record {
                  long = omega tests;
                  back = omega arith;
                  near = omega arith;
                  held = omega arith;
                  fits = omega arith;
                  agrees = rw (let e : pos - (pos - cand) ≡ cand = omega arith in e) agrees;
                })
        ]
      ]
    ]

search_chain-IsGood :
    (fuel : ℕ) (src : Bytes) (t : Table) (pos c : ℕ) (b : Best)
    → c ≤ pos
    → pos ≤ length src
    → ((i : ℕ) → get_or t.prev i 0 ≤ i)
    → IsGood src pos b
    → IsGood src pos (search_chain fuel src t pos (pos - 65536) c b)
unfolding search_chain
search_chain-IsGood zero src t pos c b behind inside links good = good
search_chain-IsGood (suc fuel) src t pos c b behind inside links good =
    elim (Bool-cases (ltb (pos - 65536) c && ltb b.len (length src - pos))) [
      | inr over ↦ rw over good
      | inl on ↦
          let reached : pos - 65536 < c = ground arith in
          rw on (
            search_chain-IsGood fuel src t pos (get_or t.prev (c - 1) 0) _
              (omega (arith, links (c - 1))) inside links
              (try_candidate-IsGood src pos (c - 1) b (omega arith) (omega arith) inside good))
    ]

-- What Delta's search finds at a position is a match, or has no gain.
pub find_match-IsGood :
    (src : Bytes) (pos : ℕ) (t : Table)
    → IsChain pos t
    → pos ≤ length src
    → IsGood src pos (find_match src pos t)
unfolding find_match
find_match-IsGood src pos t c inside =
    search_chain-IsGood _ src t pos _ (record { gain = 0; len = 0; dist = 0 })
      (elim (Bool-cases (leb 3 (length src - pos))) [
        | inl room ↦ rw room (get_or-All pos (hash_at src pos) t.head c.heads)
        | inr none_left ↦ rw none_left (omega arith)
      ])
      inside c.links (λ h. absurd (omega arith))
