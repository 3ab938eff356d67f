-- ===== src/Kv/Server/Answers.antt =====
-- What a client reads from the server's answers.
use repani.Base.{
  ◌%◌, ◌^◌, ◌≡◌, inl, inr, refl, sym, ap, ◌∙◌, subst, List, [], ◌∷◌, ◌++◌, Bytes, IsByte, All,
  All-append, length, put_le, put_le-IsByte, Option, Option-cases, ok, Result-cases, arith,
}
use repani.Kv.Vault.Aead.{Aead}
use repani.Kv.Vault.Entry.{Entry, IsStorable, marshal}
use repani.Kv.Vault.Entry.Layout.{marshal-append, header_fields, header_fields-IsByte}
use repani.Kv.Vault.Keys.{dom_fn, frame_nonce, hedged_nonce}
use repani.Kv.Wire.Frame.{Header, IsHeader, parse_header, open_frame, seal_frame}
use repani.Kv.Wire.Frame.RoundTrip.{open_frame-seal_frame}
use repani.Kv.Wire.Entries.{append_entries}
use repani.Kv.Wire.Entries.RoundTrip.{marshals, append_entries-marshals}
use repani.Kv.Wire.Resp as Resp
use repani.Kv.Wire.Resp.{IsResp, parse_resp}
use repani.Kv.Wire.Resp.RoundTrip.{parse_resp-marshal, marshal_fields}
use repani.Kv.Server.State.{Env}
use repani.Kv.Server.Replies.{seal_resp, kind_resp}

marshals-IsByte : (es : List Entry) → All IsStorable es → All IsByte (marshals es)
marshals-IsByte [] h = tt
marshals-IsByte (e ∷ es) (v, vs) =
    let t = v.typed in
    let one : All IsByte (marshal e) =
      subst (All IsByte) (sym (marshal-append e t.nonce_length))
        (All-append IsByte (header_fields e) e.ct (header_fields-IsByte e t) t.ct_bytes) in
    All-append IsByte (marshal e) (marshals es) one (marshals-IsByte es vs)

resp-IsByte : (r : Resp.Resp) → IsResp r → All IsByte r.req_nonce → All IsByte (Resp.marshal r)
resp-IsByte r v n =
    let body : All IsByte (append_entries [] r.entries) =
      subst (All IsByte) (sym (append_entries-marshals [] r.entries)) (
        All-append IsByte (put_le 4 (length r.entries % 2 ^ 32)) (marshals r.entries)
          (put_le-IsByte 4 (length r.entries % 2 ^ 32)) (marshals-IsByte r.entries v.storable)) in
    subst (All IsByte) (sym (marshal_fields r v.nonce_length))
      (omega arith, All-append IsByte r.req_nonce (append_entries [] r.entries) n body)

-- What the holder of `s2c` reads from a frame: the response, in a RESP frame for `vid`.
pub record Reads (new_aead : Bytes → Option Aead) (vid s2c : Bytes) (r : Resp.Resp) (frame : Bytes)
    : Type 0 where
  pub head : Header
  pub sealed : Bytes
  pub payload : Bytes
  pub parsed : parse_header frame ≡ ok (head, sealed)
  pub is_resp : head.kind ≡ kind_resp
  pub for_vault : head.vault_id ≡ vid
  pub opened : open_frame new_aead s2c head sealed ≡ ok payload
  pub read : parse_resp payload ≡ ok r

module _ {S A : Type 0} (cxof : Bytes → Bytes → Bytes) (new_aead : Bytes → Option Aead) where
  -- Every frame that sealResp makes of a status byte, the nonce of a request and storable entries is
  -- read by the holder of the vault's s2c key as a RESP frame for the vault with that status, that
  -- nonce and those entries, where CXOF fills 16 bytes.
  pub seal_resp-Reads :
      (env : Env S A) (vid s2c : Bytes) (r : Resp.Resp) (frame : Bytes)
      → ((label msg : Bytes) → length (cxof label msg) ≡ 16)
      → length vid ≡ 16
      → IsResp r
      → All IsByte r.req_nonce
      → seal_resp cxof new_aead env vid s2c r.req_nonce r.status r.entries ≡ ok frame
      → Reads new_aead vid s2c r frame
  unfolding seal_resp frame_nonce hedged_nonce
  seal_resp-Reads env vid s2c r frame fills id v n e = elim (Option-cases env.random) [
    | inl no_bytes ↦ absurd (cc (rw (seal_resp, no_bytes) at e))
    | inr (bytes, has) ↦
        let h : Header = record {
          kind = kind_resp;
          vault_id = vid;
          nonce = cxof dom_fn ((vid ++ put_le 8 (env.unix_nano % 2 ^ 64)) ++ bytes);
        } in
        let is_header : IsHeader h = record {
          kind_byte = omega arith;
          vault_id_length = id;
          nonce_length = fills _ _;
        } in
        elim (Result-cases (seal_frame new_aead h s2c (Resp.marshal r))) [
          | inr (x, failed) ↦ absurd (cc (rw (seal_resp, has, failed) at e))
          | inl (made, f) ↦
              let same : made ≡ frame = cc (rw (seal_resp, has, f) at e) in
              let (sealed, parsed, opened) =
                open_frame-seal_frame new_aead h s2c (Resp.marshal r) frame is_header
                  (resp-IsByte r v n) (f ∙ ap ok same) in
              record {
                head = h;
                sealed = sealed;
                payload = Resp.marshal r;
                parsed = parsed;
                is_resp = refl;
                for_vault = refl;
                opened = opened;
                read = parse_resp-marshal r v;
              }
        ]
  ]
