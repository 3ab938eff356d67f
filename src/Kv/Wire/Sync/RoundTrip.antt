-- ===== src/Kv/Wire/Sync/RoundTrip.antt =====
-- ParseSync against Marshal, both ways.
use repani.Base.{
  ℕ, ◌≡◌, ◌⊎◌, refl, sym, ap, ◌∙◌, List, [], ◌∷◌, ◌++◌, append-nil, length, take, drop, replicate,
  All, All-take, length-append, length-take, length-drop, take-append, drop-append,
  take-append-drop, write_at, write_at-append, Bytes, IsByte, put_le, get_le, length-put_le,
  get_le-put_le, put_le-get_le, get_le-lt, ok, Result-cases, inl, inr, arith,
}
use repani.Kv.Vault.Sizes.{entry_id_size}
use repani.Kv.Vault.Entry.{Entry}
use repani.Kv.Wire.Entries.{append_entries, parse_entries}
use repani.Kv.Wire.Entries.RoundTrip.{
  append_entries-marshals, parse_entries-append_entries, append_entries-parse_entries,
}
use repani.Kv.Wire.Sync.{
  SyncReq, IsReq, hash_req, pull_req, push_req, drop_req, blank, marshal, parse_sync, parse_body,
  op_probe, op_pull, op_push, op_drop, op_wait,
}

-- A zeroed array of the source's length is overwritten whole.
write_whole : (n : ℕ) (src : Bytes) → length src ≡ n → write_at 0 src (replicate n 0) ≡ src
write_whole n src h = write_at-append 0 n 0 0 [] src refl (omega arith) ∙ append-nil src

marshal_hash :
    (op : ℕ) (h : Bytes)
    → (op ≡ op_probe) ⊎ (op ≡ op_wait)
    → length h ≡ 16
    → marshal (record (blank op) { set_hash = h }) ≡ op ∷ h
unfolding marshal
marshal_hash op h o n = ground (arith, lay)
  where
    lay : write_at 1 h (write_at 0 (op ∷ []) (replicate 17 0)) ≡ op ∷ h
    lay = write_at-append 1 16 0 0 (op ∷ []) h refl (omega arith) ∙ append-nil (op ∷ h)

marshal_pull :
    (ts : ℕ) (id : Bytes)
    → length id ≡ entry_id_size
    → marshal (record (blank op_pull) { cur_ts = ts; cur_id = id }) ≡ op_pull ∷ (put_le 8 ts ++ id)
unfolding marshal
marshal_pull ts id n =
    let t = put_le 8 ts in
    let t8 : length t ≡ 8 = length-put_le 8 ts in
    ap (λ b. write_at 9 id b) (write_at-append 1 24 16 0 (op_pull ∷ []) t refl (omega arith))
    ∙ write_at-append 9 16 0 0 (op_pull ∷ t) id (omega arith) (omega arith)
    ∙ append-nil _

append_entries-cons :
    (es : List Entry) → append_entries (op_push ∷ []) es ≡ op_push ∷ append_entries [] es
append_entries-cons es =
    append_entries-marshals (op_push ∷ []) es
    ∙ ap (λ t. op_push ∷ t) (sym (append_entries-marshals [] es))

-- ParseSync reads back from its marshalled payload every request of one of the five operations whose
-- fields have their sizes, whose entries are storable and whose other fields are zero.
pub parse_sync-marshal : (r : SyncReq) → IsReq r → parse_sync (marshal r) ≡ ok r
unfolding parse_sync
parse_sync-marshal r (hash_req _ op h o n e) =
    rw (e, marshal_hash op h o n, write_whole 16 h n) (ground arith)
parse_sync-marshal r (pull_req _ ts id t n e) =
    rw (e, marshal_pull ts id n)
      (rw
        (
          length-append (put_le 8 ts) id,
          length-put_le 8 ts,
          n,
          take-append 8 (put_le 8 ts) id (length-put_le 8 ts),
          drop-append 8 (put_le 8 ts) id (length-put_le 8 ts),
          get_le-put_le 8 ts t,
          write_whole 16 id n,
        )
        refl)
parse_sync-marshal r (push_req _ es v n e) =
    rw e (unfold marshal in rw (append_entries-cons es, parse_entries-append_entries es v n) refl)
parse_sync-marshal r (drop_req _ e) = rw e (unfold marshal in refl)

Accepted : Bytes → SyncReq → Type 0
Accepted payload r = IsReq r × (marshal r ≡ payload)

accept_hash :
    (op : ℕ) (body : Bytes) (r : SyncReq)
    → (op ≡ op_probe) ⊎ (op ≡ op_wait)
    → parse_body op body ≡ ok r
    → Accepted (op ∷ body) r
unfolding parse_body Accepted
accept_hash op body r o h =
    let n : length body ≡ 16 = ground arith in
    let e : record (blank op) { set_hash = body } ≡ r = ground (arith, write_whole 16 body n) in
    (hash_req r op body o n (sym e), rw (← e) (marshal_hash op body o n))

accept_pull :
    (body : Bytes) (r : SyncReq)
    → All IsByte body
    → parse_body op_pull body ≡ ok r
    → Accepted (op_pull ∷ body) r
unfolding parse_body Accepted
accept_pull body r hb h =
    let n : length body ≡ 24 = ground arith in
    let n8 : length (take 8 body) ≡ 8 = omega (arith, length-take 8 body) in
    let n16 : length (drop 8 body) ≡ 16 = omega (arith, length-drop 8 body) in
    let ts = get_le (take 8 body) in
    let e : record (blank op_pull) { cur_ts = ts; cur_id = drop 8 body } ≡ r =
      ground (arith, write_whole 16 (drop 8 body) n16) in
    (
      pull_req r ts (drop 8 body) (get_le-lt 8 (take 8 body) (All-take IsByte 8 body hb) n8) n16
          (sym e),
      rw (← e) (
          marshal_pull ts (drop 8 body) n16
          ∙ rw (put_le-get_le 8 (take 8 body) (All-take IsByte 8 body hb) n8)
              (ap (λ t. op_pull ∷ t) (take-append-drop 8 body))),
    )

accept_push :
    (body : Bytes) (r : SyncReq)
    → All IsByte body
    → parse_body op_push body ≡ ok r
    → Accepted (op_push ∷ body) r
unfolding parse_body Accepted
accept_push body r hb h = elim (Result-cases (parse_entries body)) [
  | inr (x, e) ↦ absurd (ground arith)
  | inl (es, p) ↦
      let (v, n, same) = append_entries-parse_entries body es hb p in
      let e : record (blank op_push) { entries = es } ≡ r = ground arith in
      (
        push_req r es v n (sym e),
        rw (← e) (unfold marshal in (append_entries-cons es ∙ ap (λ t. op_push ∷ t) same)),
      )
]

accept_drop :
    (body : Bytes) (r : SyncReq) → parse_body op_drop body ≡ ok r → Accepted (op_drop ∷ body) r
unfolding parse_body Accepted marshal
accept_drop [] r h = (drop_req r (ground arith), ground arith)
accept_drop (x ∷ body) r h = absurd (ground arith)

op_cases :
    (op : ℕ) (body : Bytes) (r : SyncReq)
    → parse_body op body ≡ ok r
    → (op ≡ op_probe) ⊎ (op ≡ op_wait) ⊎ (op ≡ op_pull) ⊎ (op ≡ op_push) ⊎ (op ≡ op_drop)
unfolding parse_body
op_cases op body r h = ground arith

-- What ParseSync accepts from a byte slice is a request whose marshalled payload is that slice: the
-- operation is one of the five, its fields have their sizes, the other fields are zero, and no
-- request has a second encoding.
pub marshal-parse_sync :
    (payload : Bytes) (r : SyncReq)
    → All IsByte payload
    → parse_sync payload ≡ ok r
    → IsReq r × (marshal r ≡ payload)
unfolding parse_sync Accepted
marshal-parse_sync [] r hb h = absurd (ground arith)
marshal-parse_sync (op ∷ body) r (_, hb) h = elim (op_cases op body r h) [
  | inl o ↦ accept_hash op body r (inl o) h
  | inr (inl o) ↦ accept_hash op body r (inr o) h
  | inr (inr (inl o)) ↦ rw o (accept_pull body r hb (rw o at h))
  | inr (inr (inr (inl o))) ↦ rw o (accept_push body r hb (rw o at h))
  | inr (inr (inr (inr o))) ↦ rw o (accept_drop body r (rw o at h))
]
