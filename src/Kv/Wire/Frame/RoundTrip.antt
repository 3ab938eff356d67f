-- ===== src/Kv/Wire/Frame/RoundTrip.antt =====
-- ParseHeader and OpenFrame against SealFrame.
use repani.Base.{
  ◌+◌, ◌≤◌, ◌≡◌, refl, sym, ap, ◌∙◌, [], ◌∷◌, ◌++◌, append_assoc, append-nil, length, take, drop,
  length-append, length-take, length-drop, take-append, drop-append, drop-drop, take-append-drop,
  write_at, write_at-append, Bytes, All, IsByte, Option, Option-cases, inl, inr, ok, arith,
}
use repani.Kv.Vault.Sizes.{vault_id_size, nonce_size, aead_tag_size}
use repani.Kv.Vault.Aead.{Aead}
use repani.Kv.Wire.Frame.{
  Header, IsHeader, header_bytes, parse_header, seal_frame, open_frame, frame_version,
}

header_fields :
    (h : Header)
    → length h.vault_id ≡ vault_id_size
    → length h.nonce ≡ nonce_size
    → header_bytes h ≡ frame_version ∷ h.kind ∷ (h.vault_id ++ h.nonce)
unfolding header_bytes
header_fields h v n =
    ap (λ b. write_at 18 h.nonce b)
      (write_at-append 2 32 16 0 (1 ∷ h.kind ∷ []) h.vault_id refl (omega arith))
    ∙ write_at-append 18 16 0 0 (1 ∷ h.kind ∷ h.vault_id) h.nonce (omega arith) (omega arith)
    ∙ append-nil _

-- ParseHeader splits a header whose kind is a byte and whose fields have 16 bytes, and at least a tag's
-- length behind it, into both.
pub parse_header-header_bytes :
    (h : Header) (sealed : Bytes)
    → IsHeader h
    → aead_tag_size ≤ length sealed
    → parse_header (header_bytes h ++ sealed) ≡ ok (h, sealed)
unfolding parse_header
parse_header-header_bytes h sealed v t =
    let n = v.nonce_length in
    let i = v.vault_id_length in
    let body = h.vault_id ++ (h.nonce ++ sealed) in
    let whole : header_bytes h ++ sealed ≡ 1 ∷ h.kind ∷ body =
      ap (λ b. b ++ sealed) (header_fields h i n)
      ∙ ap (λ b. 1 ∷ h.kind ∷ b) (append_assoc h.vault_id h.nonce sealed) in
    let at_nonce : drop 16 body ≡ h.nonce ++ sealed =
      drop-append 16 h.vault_id (h.nonce ++ sealed) i in
    let at_sealed : drop 32 body ≡ sealed =
      sym (drop-drop 16 16 32 body refl) ∙ rw at_nonce (drop-append 16 h.nonce sealed n) in
    let total : length body ≡ 32 + length sealed =
      omega (arith, length-append h.vault_id (h.nonce ++ sealed), length-append h.nonce sealed) in
    rw
      (
        whole,
        at_nonce,
        at_sealed,
        total,
        take-append 16 h.nonce sealed n,
        take-append 16 h.vault_id (h.nonce ++ sealed) i,
      )
      (ground arith)

-- What ParseHeader accepts from a byte slice is a header with fields of their sizes and at least a tag behind it, which
-- together are the slice.
pub header_bytes-parse_header :
    (b : Bytes) (h : Header) (sealed : Bytes)
    → All IsByte b
    → parse_header b ≡ ok (h, sealed)
    → IsHeader h × (aead_tag_size ≤ length sealed) × (header_bytes h ++ sealed ≡ b)
unfolding parse_header
header_bytes-parse_header [] h sealed hb e = absurd (ground arith)
header_bytes-parse_header (x ∷ []) h sealed hb e = absurd (ground arith)
header_bytes-parse_header (x ∷ k ∷ b) h sealed (hx, (hk, hb)) e =
    let is_version : x ≡ 1 = ground arith in
    let room : 48 ≤ length b = ground arith in
    let i : length (take 16 b) ≡ 16 = omega (arith, length-take 16 b) in
    let n : length (take 16 (drop 16 b)) ≡ 16 =
      omega (arith, length-take 16 (drop 16 b), length-drop 16 b) in
    let is_h : record { kind = k; vault_id = take 16 b; nonce = take 16 (drop 16 b) } ≡ h =
      ground arith in
    let is_sealed : drop 32 b ≡ sealed = ground arith in
    let whole : take 16 b ++ (take 16 (drop 16 b) ++ drop 32 b) ≡ b =
      rw (← drop-drop 16 16 32 b refl, take-append-drop 16 (drop 16 b)) (take-append-drop 16 b) in
    rw (← is_h, ← is_sealed)
      (
        record { kind_byte = hk; vault_id_length = i; nonce_length = n },
        omega (arith, length-drop 32 b),
        ap (λ t. t ++ drop 32 b)
              (header_fields
                (record { kind = k; vault_id = take 16 b; nonce = take 16 (drop 16 b) }) i n)
            ∙ ap (λ t. 1 ∷ k ∷ t)
                (append_assoc (take 16 b) (take 16 (drop 16 b)) (drop 32 b) ∙ whole)
            ∙ ap (λ v. v ∷ k ∷ b) (sym is_version),
      )

-- For a header whose kind is a byte and whose fields have 16 bytes, and a payload of bytes: a frame
-- that SealFrame makes is split by ParseHeader into the header that it was made with and a
-- sealed part, and OpenFrame under the same key opens that part to the payload.
pub open_frame-seal_frame :
    (new_aead : Bytes → Option Aead) (h : Header) (k payload frame : Bytes)
    → IsHeader h
    → All IsByte payload
    → seal_frame new_aead h k payload ≡ ok frame
    → (sealed : Bytes) × (parse_header frame ≡ ok (h, sealed))
      × (open_frame new_aead k h sealed ≡ ok payload)
unfolding seal_frame open_frame
open_frame-seal_frame new_aead h k payload frame v hb e = elim (Option-cases (new_aead k)) [
  | inl no_key ↦ absurd (ground arith)
  | inr (a, key) ↦
      let sealed = a.seal h.nonce payload (header_bytes h) in
      let is_frame : header_bytes h ++ sealed ≡ frame = ground arith in
      (
        sealed,
        rw (← is_frame) (
            parse_header-header_bytes h sealed v
              (omega (arith, a.length-seal h.nonce payload (header_bytes h)))),
        rw (key, open_frame, a.open-seal h.nonce payload (header_bytes h) hb, open_frame) refl,
      )
]
