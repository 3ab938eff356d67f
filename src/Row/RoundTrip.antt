-- ===== src/Row/RoundTrip.antt =====
-- Decode of Encode.
use repani.Base.{
  ℕ, zero, suc, ◌-◌, ◌≡◌, ◌≤◌, refl, sym, ap, ◌∙◌, false, List, [], ◌∷◌, ◌++◌, append_assoc,
  append-nil, All, length, length-append, Bytes, ◌==◌, Result, ok, ◌>>=◌, arith,
}
use repani.Row.Varint.{RowError, uvarint_bytes}
use repani.Row.Value.{Item, Val, k_item, k_list, IsItem, IsVal}
use repani.Row.Encode.{item_bytes, items_bytes, val_bytes, encode}
use repani.Row.Decode.{tagged, read_length, list_loop, item, decode_loop, decode}
use repani.Row.Strings.{IsCoded, read_length-uvarint_bytes}
use repani.Row.Items.{item_bytes-IsCoded}

list_loop-step :
    (n total start tag : ℕ) (body tail : Bytes) (i : Item) (out : List Item)
    → (tag == 255) ≡ false
    → ((here : ℕ) → tagged here tag (body ++ tail) ≡ ok (i, tail))
    → list_loop (suc n) total start ((tag ∷ body) ++ tail) out
      ≡ list_loop n total start tail (out ++ i ∷ [])
unfolding list_loop
list_loop-step n total start tag body tail i out single reads =
    rw (single, reads (total - suc (length (body ++ tail)))) refl

list_loop-items_bytes :
    (total start : ℕ) (is : List Item) (rest : Bytes) (out : List Item)
    → All IsItem is
    → list_loop (length is) total start (items_bytes is ++ rest) out ≡ ok (out ++ is, rest)
unfolding items_bytes list_loop
list_loop-items_bytes total start [] rest out h =
    ap (λ (t : List Item). ok (t, rest)) (sym (append-nil out))
list_loop-items_bytes total start (i ∷ is) rest out (hi, hs) =
    let c = item_bytes-IsCoded i (items_bytes is ++ rest) hi in
    ap (λ t. list_loop (suc (length is)) total start t out)
      (append_assoc (item_bytes i) (items_bytes is) rest)
    ∙ ap (λ t. list_loop (suc (length is)) total start (t ++ (items_bytes is ++ rest)) out) c.shape
    ∙ list_loop-step (length is) total start c.tag c.body (items_bytes is ++ rest) i out c.no_list
        c.reads
    ∙ list_loop-items_bytes total start is rest (out ++ i ∷ []) hs
    ∙ ap (λ (t : List Item). ok (t, rest)) (append_assoc out (i ∷ []) is)

-- An item takes a byte at least, so a list has no more items than bytes.
items_bytes-long : (is : List Item) → All IsItem is → length is ≤ length (items_bytes is)
unfolding items_bytes
items_bytes-long [] h = omega arith
items_bytes-long (i ∷ is) (hi, hs) =
    let c = item_bytes-IsCoded i [] hi in
    omega (
      arith,
      ap length c.shape,
      length-append (item_bytes i) (items_bytes is),
      items_bytes-long is hs,
    )

-- The bytes of a value are a tag and a body, read back to the value.
record IsRead (v : Val) (bytes rest : Bytes) : Type 0 where
  tag : ℕ
  body : Bytes
  shape : bytes ≡ tag ∷ body
  reads : (total : ℕ) → item total tag (body ++ rest) ≡ ok (v, rest)

item_bytes-IsRead :
    (i : Item) (bytes rest : Bytes) → IsCoded i bytes rest → IsRead (k_item i) bytes rest
unfolding item
item_bytes-IsRead i bytes rest c = record {
  tag = c.tag;
  body = c.body;
  shape = c.shape;
  reads = λ total. rw (c.no_list, c.reads (total - suc (length (c.body ++ rest)))) refl;
}

-- What item does once a list's count is read.
abbrev list_from : ℕ → ℕ → Result RowError (ℕ × Bytes) → Result RowError (Val × Bytes)
list_from total start r =
    r >>= λ (n, rest). list_loop n total start rest [] >>= λ (is, behind). ok (k_list is, behind)

list_from-items_bytes :
    (total start : ℕ) (is : List Item) (rest : Bytes)
    → All IsItem is
    → list_from total start (ok (length is, items_bytes is ++ rest)) ≡ ok (k_list is, rest)
list_from-items_bytes total start is rest hs =
    rw (list_loop-items_bytes total start is rest [] hs) refl

val_bytes-IsRead : (v : Val) (rest : Bytes) → IsVal v → IsRead v (val_bytes v) rest
unfolding val_bytes item
val_bytes-IsRead (k_item i) rest h =
    item_bytes-IsRead i (item_bytes i) rest (item_bytes-IsCoded i rest h)
val_bytes-IsRead (k_list is) rest (hs, size) = record {
  tag = 255;
  body = uvarint_bytes (length is) ++ items_bytes is;
  shape = refl;
  reads = λ total.
      let start = total - suc (length ((uvarint_bytes (length is) ++ items_bytes is) ++ rest)) in
      let counted =
        read_length-uvarint_bytes start (length is) (items_bytes is ++ rest) size
          (omega (arith, items_bytes-long is hs, length-append (items_bytes is) rest)) in
      ap (λ (t : Bytes). list_from total start (read_length start t))
        (append_assoc (uvarint_bytes (length is)) (items_bytes is) rest)
      ∙ ap (list_from total start) counted
      ∙ list_from-items_bytes total start is rest hs;
}

decode_loop-step :
    (fuel total tag : ℕ) (body tail : Bytes) (v : Val) (out : List Val)
    → item total tag (body ++ tail) ≡ ok (v, tail)
    → decode_loop (suc fuel) total ((tag ∷ body) ++ tail) out
      ≡ decode_loop fuel total tail (out ++ v ∷ [])
unfolding decode_loop
decode_loop-step fuel total tag body tail v out h = rw h refl

decode_loop-encode :
    (fuel total : ℕ) (vs : List Val) (out : List Val)
    → All IsVal vs
    → length (encode vs) ≤ fuel
    → decode_loop fuel total (encode vs) out ≡ ok (out ++ vs)
unfolding decode_loop encode
decode_loop-encode fuel total [] out h hf = ap (λ (t : List Val). ok t) (sym (append-nil out))
decode_loop-encode zero total (v ∷ vs) out (hv, hs) hf =
    let r = val_bytes-IsRead v [] hv in
    absurd (omega (arith, ap length r.shape, length-append (val_bytes v) (encode vs)))
decode_loop-encode (suc fuel) total (v ∷ vs) out (hv, hs) hf =
    let r = val_bytes-IsRead v (encode vs) hv in
    ap (λ t. decode_loop (suc fuel) total (t ++ encode vs) out) r.shape
    ∙ decode_loop-step fuel total r.tag r.body (encode vs) v out (r.reads total)
    ∙ decode_loop-encode fuel total vs (out ++ v ∷ []) hs
        (omega (arith, ap length r.shape, length-append (val_bytes v) (encode vs)))
    ∙ ap (λ (t : List Val). ok t) (append_assoc out (v ∷ []) vs)

-- Decode reads back every row of values that keep the rules, from the bytes that Encode writes: among
-- them compressed strings, and lists of items that are no lists.
pub decode-encode : (vs : List Val) → All IsVal vs → decode (encode vs) ≡ ok vs
unfolding decode
decode-encode vs h =
    decode_loop-encode (length (encode vs)) (length (encode vs)) vs [] h (omega arith)
