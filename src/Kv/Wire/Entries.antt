-- ===== src/Kv/Wire/Entries.antt =====
-- kv/wire/wire.go: entry lists, push_count(4) || entries.
pub mod RoundTrip
use repani.Base.{
  ℕ, zero, suc, ◌+◌, ◌-◌, ◌%◌, ◌^◌, List, [], ◌∷◌, ◌++◌, length, take, drop, Bytes, put_le, get_le,
  ltb, ◌==◌, if◌then◌else◌, Result, ok, err, ◌>>=◌, map_err,
}
use repani.Kv.Vault.Entry.{Entry, marshal, unmarshal_entry}
use repani.Kv.Wire.Errors.{WireError, malformed, entry, trailing}

append_marshals : Bytes → List Entry → Bytes
append_marshals dst [] = dst
append_marshals dst (e ∷ es) = append_marshals (dst ++ marshal e) es

-- appendEntries
unfoldable pub append_entries : Bytes → List Entry → Bytes
unfolding append_marshals
append_entries dst entries = append_marshals (dst ++ put_le 4 (length entries % 2 ^ 32)) entries

-- The loop of parseEntries with `n` rounds left, at offset `off` of `b`.
parse_loop : ℕ → Bytes → ℕ → List Entry → Result WireError (List Entry × ℕ)
parse_loop zero b off out = ok (out, off)
parse_loop (suc n) b off out =
    map_err (entry (length out)) (unmarshal_entry (drop off b)) >>= λ (e, consumed).
    parse_loop n b (off + consumed) (out ++ e ∷ [])

-- parseEntries
unfoldable pub parse_entries : Bytes → Result WireError (List Entry)
unfolding parse_loop
parse_entries b =
    if ltb (length b) 4
    then err malformed
    else parse_loop (get_le (take 4 b)) b 4 [] >>= λ (out, off).
        if off == length b then ok out else err (trailing (length b - off))
