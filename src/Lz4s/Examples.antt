-- ===== src/Lz4s/Examples.antt =====
-- Runs of lz4s on short texts.
use repani.Base.{ℕ, Option, ◌*◌, ◌≡◌, ◌≤◌, refl, [], ◌∷◌, length, Bytes, none, some, arith}
use repani.Lz4s.Decoder.{undelta, decompress, apply_match}
use repani.Lz4s.Table.{Table, new_table, insert_from}
use repani.Lz4s.Encoder.{compress, delta}
use repani.Lz4s.RoundTrip.{undelta-delta}
use repani.Lz4s.Matches.{IsChain, new_table-IsChain, insert_from-IsChain}
use repani.Lz4s.Bounds.{Rounds, sized, undelta-Rounds}
use repani.Lz4s.Copies.{IsApplied, apply_match_lem}
use repani.Lz4s.Expansion.{delta-expands}

abbrev text : Bytes
text = 1 ∷ 2 ∷ 3 ∷ 1 ∷ 2 ∷ 3 ∷ 1 ∷ 2 ∷ 3 ∷ []

-- Three literals, then six bytes from three back.
abbrev packed : Bytes
packed = 0x34 ∷ 1 ∷ 2 ∷ 3 ∷ 2 ∷ []

compress-text : compress text ≡ packed
unfolding compress insert_from new_table
compress-text = refl

decompress-packed : decompress packed 9 ≡ some text
unfolding decompress
decompress-packed = refl

-- A size that the stream does not fill, a distance before the output, a stream that ends in its
-- literals.
decompress_longer : decompress packed 10 ≡ none
unfolding decompress
decompress_longer = refl

decompress_far : decompress (0x11 ∷ 1 ∷ 1 ∷ []) 4 ≡ none
unfolding decompress
decompress_far = refl

decompress_cut : decompress (0x30 ∷ 1 ∷ []) 3 ≡ none
unfolding decompress
decompress_cut = refl

undelta-delta_example : undelta (7 ∷ 1 ∷ 2 ∷ 3 ∷ []) (delta (7 ∷ 1 ∷ 2 ∷ 3 ∷ []) text) 9 ≡ some text
undelta-delta_example = undelta-delta (7 ∷ 1 ∷ 2 ∷ 3 ∷ []) text

undelta-Rounds_example :
    (end : Option Bytes) × ((n : ℕ) × ((n ≤ 5)
        × Rounds 9 packed [] end n
        × (undelta [] packed 9 ≡ sized 9 [] end)))
undelta-Rounds_example = undelta-Rounds [] packed 9

undelta-packed : undelta [] packed 9 ≡ some text
unfolding undelta
undelta-packed = refl

apply_match_lem_example : IsApplied 9 3 6 (1 ∷ 2 ∷ 3 ∷ []) (apply_match 9 3 6 (1 ∷ 2 ∷ 3 ∷ []))
apply_match_lem_example = apply_match_lem 9 3 6 (1 ∷ 2 ∷ 3 ∷ []) (omega arith)

-- The chain after the first three bytes of the text.
abbrev three_in : Table
three_in = insert_from text 0 3 (new_table text)

three_in-IsChain : IsChain 3 three_in
three_in-IsChain = insert_from-IsChain text 0 3 (new_table text) (new_table-IsChain text)

delta-expands_example : 9 ≤ 255 * length (delta [] text)
delta-expands_example = delta-expands [] text
