-- ===== src/Lz4s/Prefix.antt =====
-- What a stream has decoded so far, a prefix of the base and the source.
use repani.Base.{
  ℕ, zero, suc, ◌+◌, ◌-◌, ◌≡◌, ◌≤◌, ◌<◌, refl, ap, ◌∙◌, [], ◌∷◌, ◌++◌, append_assoc, length, take,
  get_or, length-append, length-take, Bytes, some, arith,
}
use repani.Lz4s.Decoder.{sequence, copy_match, undelta_loop}
use repani.Lz4s.Matches.{Agrees}

-- The stream `comp` takes the decoder from `base` to the output `out`, whatever follows.
pub record Decodes (dsize : ℕ) (base comp out : Bytes) : Type 0 where
  pub rounds : ℕ
  pub few : rounds ≤ length comp
  pub runs :
      (fuel : ℕ) (rest : Bytes)
      → undelta_loop (rounds + fuel) dsize (comp ++ rest) base ≡ undelta_loop fuel dsize rest out

pub nothing_yet : (dsize : ℕ) (base : Bytes) → Decodes dsize base [] base
nothing_yet dsize base = record {
  rounds = 0;
  few = omega arith;
  runs = λ fuel rest. ap (λ n. undelta_loop n dsize rest base) (omega arith);
}

pub one_more :
    (dsize token : ℕ) (base comp body out longer : Bytes)
    → Decodes dsize base comp out
    → ((rest : Bytes) → sequence dsize token (body ++ rest) out ≡ some (rest, longer))
    → Decodes dsize base (comp ++ token ∷ body) longer
unfolding undelta_loop
one_more dsize token base comp body out longer d h = record {
  rounds = d.rounds + 1;
  few = omega (arith, d.few, length-append comp (token ∷ body));
  runs = λ fuel rest.
      ap (λ (n : ℕ). undelta_loop n dsize ((comp ++ token ∷ body) ++ rest) base)
        (let e : d.rounds + 1 + fuel ≡ d.rounds + suc fuel = omega arith in e)
      ∙ ap (λ (t : Bytes). undelta_loop (d.rounds + suc fuel) dsize t base)
          (append_assoc comp (token ∷ body) rest)
      ∙ d.runs (suc fuel) (token ∷ body ++ rest)
      ∙ (rw (undelta_loop, h rest) refl);
}

-- One byte more of a prefix.
pub take-suc :
    (q : ℕ) (xs : Bytes) → q < length xs → take q xs ++ get_or xs q 0 ∷ [] ≡ take (q + 1) xs
take-suc q [] h = absurd (omega arith)
take-suc zero (x ∷ xs) h = refl
take-suc (suc q) (x ∷ xs) h =
    ap (λ t. x ∷ t) (take-suc q xs (omega arith))
    ∙ ap (λ i. take i (x ∷ xs)) (let e : suc (q + 1) ≡ suc q + 1 = omega arith in e)

get_or-take : (k q : ℕ) (xs : Bytes) → k < q → get_or (take q xs) k 0 ≡ get_or xs k 0
get_or-take k zero xs h = absurd (omega arith)
get_or-take k (suc q) [] h = refl
get_or-take zero (suc q) (x ∷ xs) h = refl
get_or-take (suc k) (suc q) (x ∷ xs) h = get_or-take k q xs (omega arith)

pub length-take_inside : (q : ℕ) (xs : Bytes) → q ≤ length xs → length (take q xs) ≡ q
length-take_inside q xs h = omega (arith, length-take q xs)

-- The copy of a match makes the prefix longer by its bytes.
pub copy_match-take :
    (all : Bytes) (n q dist : ℕ)
    → 1 ≤ dist
    → dist ≤ q
    → q + n ≤ length all
    → Agrees all (q - dist) q n
    → copy_match n dist (take q all) ≡ take (q + n) all
unfolding copy_match
copy_match-take all zero q dist lo hi fits a = ap (λ i. take i all) (omega arith)
copy_match-take all (suc n) q dist lo hi fits a =
    let len : length (take q all) ≡ q = length-take_inside q all (omega arith) in
    let byte : get_or (take q all) (length (take q all) - dist) 0 ≡ get_or all q 0 =
      ap (λ i. get_or (take q all) (i - dist) 0) len
      ∙ get_or-take (q - dist) q all (omega arith)
      ∙ ap (λ i. get_or all i 0) (let e : q - dist ≡ q - dist + 0 = omega arith in e)
      ∙ a 0 (omega arith)
      ∙ ap (λ i. get_or all i 0) (let e : q + 0 ≡ q = omega arith in e) in
    ap (λ b. copy_match n dist (take q all ++ b ∷ [])) byte
    ∙ ap (copy_match n dist) (take-suc q all (omega arith))
    ∙ copy_match-take all n (q + 1) dist lo (omega arith) (omega arith) (λ j h.
      ap (λ i. get_or all i 0) (let e : q + 1 - dist + j ≡ q - dist + suc j = omega arith in e)
      ∙ a (suc j) (omega arith)
      ∙ ap (λ i. get_or all i 0) (let e : q + suc j ≡ q + 1 + j = omega arith in e))
    ∙ ap (λ i. take i all) (omega arith)
