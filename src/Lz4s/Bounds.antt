-- ===== src/Lz4s/Bounds.antt =====
-- Bounds of lz4s: the decoder's output and rounds, and the rounds and costs of the search.
use repani.Base.{
  ℕ, zero, suc, ◌+◌, ◌≡◌, ◌≤◌, inl, inr, refl, sym, ap, [], ◌∷◌, length, drop, length-drop, Bytes,
  ◌==◌, ==_iff, not, if◌then◌else◌, Bool-cases, Option-cases, Option, none, some, arith, tests,
}
use repani.Lz4s.Decoder.{literal_length, take_literals, take_match, sequence, undelta_loop, undelta}
use repani.Lz4s.Consumed.{
  Shorter, literal_length-Shorter, Within, take_literals-Within, take_match-Within,
}

-- One sequence uses up its bytes, and keeps the output within the size.
sequence-Within :
    (dsize token : ℕ) (rest out : Bytes)
    → length out ≤ dsize
    → Within (length rest) dsize (sequence dsize token rest out)
unfolding sequence
sequence-Within dsize token rest out ho =
    from_length (literal_length token rest) (literal_length-Shorter token rest)
  where
    from_literals :
        (r : Option (Bytes × Bytes))
        → Within (length rest) dsize r
        → Within
            (length rest)
            dsize
            (elim r [ none ↦ none | some (r2, longer) ↦ take_match dsize token r2 longer ])
    from_literals none h = tt
    from_literals (some (r2, longer)) (hr, h) =
        take_match-Within (length rest) dsize longer token r2 hr h

    from_length :
        (r : Option (ℕ × Bytes))
        → Shorter (length rest) r
        → Within (length rest) dsize (elim r [
          | none ↦ none
          | some (l, r1) ↦ elim (take_literals dsize l r1 out) [
            | none ↦ none
            | some (r2, longer) ↦ take_match dsize token r2 longer
          ]
        ])
    from_length none h = tt
    from_length (some (l, r1)) h =
        from_literals (take_literals dsize l r1 out)
          (take_literals-Within (length rest) dsize l r1 out h ho)

-- The rounds of Undelta's loop, from a stream and an output to what it ends with and how many rounds it
-- took: it has no fuel, and a loop that does not end has no such rounds.
pub data Rounds (dsize : ℕ) : Bytes → Bytes → Option Bytes → ℕ → Type 0 where
  run_out : (out : Bytes) → Rounds dsize [] out (some out) 0
  turned_down :
      (token : ℕ) (rest out : Bytes)
      → sequence dsize token rest out ≡ none
      → Rounds dsize (token ∷ rest) out none 1
  one_round :
      (token : ℕ) (rest out r longer : Bytes) (end : Option Bytes) (n : ℕ)
      → sequence dsize token rest out ≡ some (r, longer)
      → Rounds dsize r longer end n
      → Rounds dsize (token ∷ rest) out end (suc n)

next-Rounds :
    (f dsize token : ℕ) (rest out : Bytes) (q : Option (Bytes × Bytes))
    → sequence dsize token rest out ≡ q
    → Within (length rest) dsize q
    → ((r longer : Bytes)
        → length r ≤ length rest
        → length longer ≤ dsize
        → (n : ℕ) × ((n ≤ length r) × Rounds dsize r longer (undelta_loop f dsize r longer) n))
    → (n : ℕ) × ((n ≤ suc (length rest))
        × Rounds dsize
            (token ∷ rest)
            out
            (elim q [ none ↦ none | some (r, longer) ↦ undelta_loop f dsize r longer ])
            n)
next-Rounds f dsize token rest out none e h go_on = (1, (omega arith, turned_down token rest out e))
next-Rounds f dsize token rest out (some (r, longer)) e (hr, hl) go_on =
    let (n, (few, rounds)) = go_on r longer hr hl in
    (suc n, (omega arith, one_round token rest out r longer _ n e rounds))

undelta_loop-Rounds :
    (f dsize : ℕ) (comp out : Bytes)
    → length out ≤ dsize
    → length comp ≤ f
    → (n : ℕ) × ((n ≤ length comp) × Rounds dsize comp out (undelta_loop f dsize comp out) n)
unfolding undelta_loop
undelta_loop-Rounds f dsize [] out ho hf = (0, (omega arith, run_out out))
undelta_loop-Rounds zero dsize (token ∷ rest) out ho hf = absurd (omega arith)
undelta_loop-Rounds (suc f) dsize (token ∷ rest) out ho hf =
    next-Rounds f dsize token rest out (sequence dsize token rest out) refl
      (sequence-Within dsize token rest out ho)
      (λ r longer hr hl. undelta_loop-Rounds f dsize r longer hl (omega arith))

-- What Undelta makes of the end of its loop: the output behind the base, if it has the size.
abbrev pub sized : ℕ → Bytes → Option Bytes → Option Bytes
sized dsize base none = none
sized dsize base (some out) =
    if not (length out == dsize + length base) then none else some (drop (length base) out)

undelta-sized :
    (base comp : Bytes) (dsize : ℕ) (end : Option Bytes)
    → undelta_loop (length comp) (dsize + length base) comp base ≡ end
    → undelta base comp dsize ≡ sized dsize base end
unfolding undelta
undelta-sized base comp dsize none e = rw (undelta, e) refl
undelta-sized base comp dsize (some out) e = rw (undelta, e) refl

-- Undelta ends on every stream, base and size: its loop, which has no fuel, takes at most as many
-- rounds as the stream has bytes, and Undelta returns what they end with, if it has the size.
pub undelta-Rounds :
    (base comp : Bytes) (dsize : ℕ)
    → (end : Option Bytes) × ((n : ℕ) × ((n ≤ length comp)
          × Rounds (dsize + length base) comp base end n
          × (undelta base comp dsize ≡ sized dsize base end)))
undelta-Rounds base comp dsize =
    let (n, (few, rounds)) =
      undelta_loop-Rounds (length comp) (dsize + length base) comp base (omega arith)
        (omega arith) in
    (
      undelta_loop (length comp) (dsize + length base) comp base,
      (n, (few, rounds, undelta-sized base comp dsize _ refl)),
    )

-- What Undelta returns has exactly the size that it was asked for.
pub length-undelta :
    (base comp out : Bytes) (dsize : ℕ) → undelta base comp dsize ≡ some out → length out ≡ dsize
unfolding undelta
length-undelta base comp out dsize h =
    elim (Option-cases (undelta_loop (length comp) (dsize + length base) comp base)) [
      | inl turned ↦ absurd (cc (rw (undelta, turned) at h))
      | inr (all, e) ↦ elim (Bool-cases (length all == dsize + length base)) [
        | inr wrong ↦ absurd (cc (rw (undelta, e, wrong) at h))
        | inl right ↦
            let is_out : drop (length base) all ≡ out =
              ground (arith, rw (undelta, e, right) at h) in
            omega (
              tests,
              ap length (sym is_out),
              length-drop (length base) all,
              (==_iff (length all) (dsize + length base)).0 right,
            )
      ]
    ]
