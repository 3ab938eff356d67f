-- ===== src/Kv/Wire/Resp/RoundTrip.antt =====
-- ParseResp against Resp.Marshal, both ways.
use repani.Base.{
  ◌%◌, ◌^◌, ◌≡◌, refl, sym, ap, ◌∙◌, [], ◌∷◌, ◌++◌, append-nil, length, take, drop, All, All-drop,
  length-append, length-take, take-append, drop-append, take-append-drop, write_at-append, Bytes,
  IsByte, ok, Result-cases, inl, inr, arith,
}
use repani.Kv.Vault.Sizes.{nonce_size}
use repani.Kv.Wire.Entries.{append_entries, parse_entries}
use repani.Kv.Wire.Entries.RoundTrip.{
  append_entries-marshals, parse_entries-append_entries, append_entries-parse_entries,
}
use repani.Kv.Wire.Resp.{Resp, IsResp, marshal, parse_resp}

append_entries-append :
    (dst : Bytes) (r : Resp) → append_entries dst r.entries ≡ dst ++ append_entries [] r.entries
append_entries-append dst r =
    append_entries-marshals dst r.entries
    ∙ ap (λ t. dst ++ t) (sym (append_entries-marshals [] r.entries))

pub marshal_fields :
    (r : Resp)
    → length r.req_nonce ≡ nonce_size
    → marshal r ≡ r.status % 2 ^ 8 ∷ (r.req_nonce ++ append_entries [] r.entries)
unfolding marshal
marshal_fields r n =
    ap (λ b. append_entries b r.entries)
      (write_at-append 1 16 0 0 (r.status % 2 ^ 8 ∷ []) r.req_nonce refl (omega arith)
        ∙ append-nil _)
    ∙ append_entries-append (r.status % 2 ^ 8 ∷ r.req_nonce) r

-- ParseResp reads back from its marshalled payload every response with a status byte, a nonce of 16
-- bytes and fewer than 2^32 storable entries.
pub parse_resp-marshal : (r : Resp) → IsResp r → parse_resp (marshal r) ≡ ok r
unfolding parse_resp
parse_resp-marshal r v =
    let n = v.nonce_length in
    let whole = append_entries [] r.entries in
    let status : r.status % 2 ^ 8 ≡ r.status = omega (arith, v.status_byte) in
    rw
      (
        marshal_fields r n,
        drop-append 16 r.req_nonce whole n,
        take-append 16 r.req_nonce whole n,
        length-append r.req_nonce whole,
        n,
        parse_entries-append_entries r.entries v.storable v.counted,
        status,
      )
      (ground arith)

-- What ParseResp accepts from a byte slice is a response with a status byte, a nonce of 16 bytes and
-- fewer than 2^32 storable entries, whose marshalled payload is that slice.
pub marshal-parse_resp :
    (payload : Bytes) (r : Resp)
    → All IsByte payload
    → parse_resp payload ≡ ok r
    → IsResp r × (marshal r ≡ payload)
unfolding parse_resp
marshal-parse_resp [] r hb h = absurd (ground arith)
marshal-parse_resp (s ∷ body) r (hs, hb) h = elim (Result-cases (parse_entries (drop 16 body))) [
  | inr (x, e) ↦ absurd (ground arith)
  | inl (es, p) ↦
      let (v, n, same) =
        append_entries-parse_entries (drop 16 body) es (All-drop IsByte 16 body hb) p in
      let n16 : length (take 16 body) ≡ 16 = ground (arith, length-take 16 body) in
      let e : record { status = s; req_nonce = take 16 body; entries = es } ≡ r = ground arith in
      let status : s % 2 ^ 8 ≡ s = omega arith in
      rw (← e) (
        record { status_byte = hs; nonce_length = n16; storable = v; counted = n },
        marshal_fields (record { status = s; req_nonce = take 16 body; entries = es }) n16
            ∙ rw (status, same) (ap (λ t. s ∷ t) (take-append-drop 16 body)),
      )
]
