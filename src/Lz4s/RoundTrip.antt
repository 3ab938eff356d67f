-- ===== src/Lz4s/RoundTrip.antt =====
-- Undelta of Delta, against the same base.
use repani.Base.{
  ℕ, zero, suc, ◌+◌, ◌-◌, ◌≡◌, ◌≤◌, ◌<◌, inl, inr, refl, sym, ap, subst, ◌∙◌, true, [], ◌∷◌, ◌++◌,
  append_assoc, append-nil, length, length-zero, take, drop, get_or, length-append, take_all,
  take-append, drop-append, Bytes, ltb, ltb→lt, ◌==◌, not, if◌then◌else◌, Bool-cases, Option, none,
  some, arith, tests,
}
use repani.Lz4s.Decoder.{copy_match, undelta_loop, undelta}
use repani.Lz4s.Table.{insert_from, new_table}
use repani.Lz4s.Encoder.{emit, State, advance, delta_loop, delta, find_match}
use repani.Lz4s.Matches.{
  IsChain, insert_from-IsChain, insert-step, new_table-IsChain, find_match-IsGood,
}
use repani.Lz4s.Sequence.{CanCopy, sequence-match, sequence-literals}
use repani.Lz4s.Prefix.{
  Decodes, nothing_yet, one_more, take-suc, length-take_inside, copy_match-take,
}

-- The loop of Delta between two rounds: what is written decodes to the bytes before the pending
-- literals, and those are the bytes up to `pos`.
record IsInvariant (base all : Bytes) (s : State) : Type 0 where
  done : Bytes
  decodes : Decodes (length all) base s.out done
  prefix : done ++ s.lits ≡ take s.pos all
  inside : s.pos ≤ length all
  chain : IsChain s.pos s.table

advance-IsInvariant :
    (base all : Bytes) (s : State)
    → s.pos < length all
    → IsInvariant base all s
    → IsInvariant base all (advance all s (find_match all s.pos s.table))
unfolding advance emit
advance-IsInvariant base all s more v =
    let best = find_match all s.pos s.table in
    elim (Bool-cases (ltb 0 best.gain)) [
      | inr literal ↦ rw literal (record {
        done = v.done;
        decodes = v.decodes;
        prefix =
            sym (append_assoc v.done s.lits (get_or all s.pos 0 ∷ []))
            ∙ ap (λ t. t ++ get_or all s.pos 0 ∷ []) v.prefix
            ∙ take-suc s.pos all more;
        inside = omega (arith, more);
        chain = insert-step all s.pos s.table v.chain;
      })
      | inl gained ↦
          let m =
            find_match-IsGood all s.pos s.table v.chain v.inside (ltb→lt 0 best.gain gained) in
          let copied : copy_match best.len best.dist (v.done ++ s.lits)
              ≡ take (s.pos + best.len) all =
            ap (copy_match best.len best.dist) v.prefix
            ∙ copy_match-take all best.len s.pos best.dist m.back m.held m.fits m.agrees in
          let size : length (v.done ++ s.lits) ≡ s.pos =
            ap length v.prefix ∙ length-take_inside s.pos all v.inside in
          let can : CanCopy (length all) best.len best.dist (v.done ++ s.lits) = record {
            long = m.long;
            back = m.back;
            near = m.near;
            held = omega (arith, m.held, size);
            fits = omega (arith, m.fits, size);
          } in
          rw gained (record {
            done = copy_match best.len best.dist (v.done ++ s.lits);
            decodes =
                one_more (length all) _ base s.out _ v.done _ v.decodes
                  (λ rest. sequence-match (length all) best.len best.dist s.lits rest v.done can);
            prefix = append-nil _ ∙ copied;
            inside = m.fits;
            chain = insert_from-IsChain all s.pos best.len s.table v.chain;
          })
    ]

advance_on :
    (base all : Bytes) (s : State)
    → IsInvariant base all s
    → s.pos < (advance all s (find_match all s.pos s.table)).pos
unfolding advance
advance_on base all s v =
    let best = find_match all s.pos s.table in
    elim (Bool-cases (ltb 0 best.gain)) [
      | inr literal ↦ rw literal (omega arith)
      | inl gained ↦
          let m =
            find_match-IsGood all s.pos s.table v.chain v.inside (ltb→lt 0 best.gain gained) in
          rw gained (omega (arith, m.long))
    ]

-- With as many rounds as bytes, the loop of Delta ends at the end.
delta_loop-IsInvariant :
    (fuel : ℕ) (base all : Bytes) (s : State)
    → length all ≤ s.pos + fuel
    → IsInvariant base all s
    → IsInvariant base all (delta_loop fuel all s) × (length all ≤ (delta_loop fuel all s).pos)
unfolding delta_loop
delta_loop-IsInvariant zero base all s h v = (v, omega arith)
delta_loop-IsInvariant (suc fuel) base all s h v = elim (Bool-cases (ltb s.pos (length all))) [
  | inr ended ↦ rw ended (v, omega tests)
  | inl more ↦
      let less = ltb→lt s.pos (length all) more in
      rw more (
        delta_loop-IsInvariant fuel base all (advance all s (find_match all s.pos s.table))
          (omega (arith, advance_on base all s v)) (advance-IsInvariant base all s less v))
]

-- The stream with the pending literals emitted decodes to everything.
finish-Decodes :
    (base all : Bytes) (s : State)
    → IsInvariant base all s
    → length all ≤ s.pos
    → Decodes (length all) base (if ltb 0 (length s.lits) then emit s.out s.lits 0 0 else s.out) all
unfolding emit
finish-Decodes base all s v ended =
    let everything : v.done ++ s.lits ≡ all = v.prefix ∙ take_all s.pos all ended in
    elim (Bool-cases (ltb 0 (length s.lits))) [
      | inl pending ↦ rw pending (
          one_more (length all) _ base s.out _ v.done all v.decodes (λ rest.
            sequence-literals (length all) s.lits rest v.done
              (omega (arith, length-append v.done s.lits, ap length everything))
            ∙ ap (λ (t : Bytes). some (rest, t)) everything))
      | inr none_left ↦
          let empty : s.lits ≡ [] = length-zero s.lits (omega tests) in
          let same : v.done ≡ all =
            sym (append-nil v.done) ∙ ap (λ t. v.done ++ t) (sym empty) ∙ everything in
          rw none_left (subst (Decodes (length all) base s.out) same v.decodes)
    ]

-- The state that the loop of Delta starts from.
abbrev pub start_state : Bytes → Bytes → State
start_state base src = record {
  out = [];
  lits = [];
  pos = length base;
  table = insert_from (base ++ src) 0 (length base) (new_table (base ++ src));
}

delta_loop-ended :
    (base src : Bytes)
    → IsInvariant base (base ++ src) (delta_loop (length src) (base ++ src) (start_state base src))
      × (length (base ++ src) ≤ (delta_loop (length src) (base ++ src) (start_state base src)).pos)
delta_loop-ended base src =
    let all = base ++ src in
    let start = length base in
    let t = insert_from all 0 start (new_table all) in
    delta_loop-IsInvariant (length src) base all (start_state base src)
      (omega (arith, length-append base src))
      (record {
        done = base;
        decodes = nothing_yet (length all) base;
        prefix = append-nil base ∙ sym (take-append start base src refl);
        inside = omega (arith, length-append base src);
        chain =
            subst (λ n. IsChain n t) (let e : 0 + start ≡ start = omega arith in e)
              (insert_from-IsChain all 0 start (new_table all) (new_table-IsChain all));
      })

pub delta_loop-ends :
    (base src : Bytes)
    → length (base ++ src) ≤ (delta_loop (length src) (base ++ src) (start_state base src)).pos
delta_loop-ends base src = (delta_loop-ended base src).1

delta-Decodes :
    (base src : Bytes) → Decodes (length (base ++ src)) base (delta base src) (base ++ src)
unfolding delta
delta-Decodes base src =
    let (v, ended) = delta_loop-ended base src in finish-Decodes base (base ++ src) _ v ended

-- A stream that decodes to `out` in few rounds is decoded with its length as fuel.
undelta_loop-Decodes :
    (dsize : ℕ) (base comp out : Bytes)
    → Decodes dsize base comp out
    → undelta_loop (length comp) dsize comp base ≡ some out
unfolding undelta_loop
undelta_loop-Decodes dsize base comp out d =
    ap (λ n. undelta_loop n dsize comp base)
      (let e : length comp ≡ d.rounds + (length comp - d.rounds) = omega (arith, d.few) in e)
    ∙ ap (λ t. undelta_loop (d.rounds + (length comp - d.rounds)) dsize t base)
        (sym (append-nil comp))
    ∙ d.runs (length comp - d.rounds) []

-- Undelta gives back the source from what Delta made of it, against the same base, whatever both are.
pub undelta-delta : (base src : Bytes) → undelta base (delta base src) (length src) ≡ some src
unfolding undelta
undelta-delta base src =
    let size : length src + length base ≡ length (base ++ src) =
      omega (arith, length-append base src) in
    let decoded =
      undelta_loop-Decodes _ base (delta base src) (base ++ src) (delta-Decodes base src) in
    let same_size : (length (base ++ src) == length src + length base) ≡ true = ground arith in
    ap
      (λ (r : Option Bytes). elim r [
        | none ↦ none
        | some out ↦
            if not (length out == length src + length base)
            then none
            else some (drop (length base) out)
      ])
      (ap (λ n. undelta_loop (length (delta base src)) n (delta base src) base) size ∙ decoded)
    ∙ (rw same_size (ap some (drop-append (length base) base src refl)))
