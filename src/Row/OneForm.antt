-- ===== src/Row/OneForm.antt =====
-- What Decode accepts is what Encode writes: a row has one form.
use repani.Base.{
  ℕ, zero, suc, ◌-◌, ◌≡◌, ◌≤◌, ◌<◌, inl, inr, refl, sym, ap, subst, ◌∙◌, List, [], ◌∷◌, ◌++◌,
  append_assoc, append-nil, All, length, length-append, Bytes, IsByte, ◌==◌, ==_iff, Bool-cases, ok,
  arith,
}
use repani.Row.Varint.{uvarint_bytes}
use repani.Row.Value.{Item, Val, k_item, k_list, IsItem, IsVal}
use repani.Row.Encode.{item_bytes, items_bytes, val_bytes, encode}
use repani.Row.Decode.{fail, read_length, tagged, list_loop, item, decode_loop, decode}
use repani.Row.Canonical.{bind_inv, All-behind, read_length_inv}
use repani.Row.Accepts.{tagged-IsBack}
use repani.Row.Items.{item_bytes-IsCoded}

-- The items that the loop adds, and what they are the bytes of.
record IsListed (n : ℕ) (b : Bytes) (out is : List Item) (rest : Bytes) : Type 0 where
  more : List Item
  added : is ≡ out ++ more
  valid : All IsItem more
  counted : length more ≡ n
  written : items_bytes more ++ rest ≡ b

list_loop_inv :
    (n total start : ℕ) (b : Bytes) (out is : List Item) (rest : Bytes)
    → All IsByte b
    → list_loop n total start b out ≡ ok (is, rest)
    → IsListed n b out is rest
unfolding list_loop items_bytes fail
list_loop_inv zero total start b out is rest hb h =
    let list_is : out ≡ is = cc h in
    let rest_is : b ≡ rest = cc h in
    record {
      more = [];
      added = sym list_is ∙ sym (append-nil out);
      valid = tt;
      counted = refl;
      written = sym rest_is;
    }
list_loop_inv (suc n) total start [] out is rest hb h = absurd (cc h)
list_loop_inv (suc n) total start (tag ∷ b) out is rest (ht, hb) h =
    elim (Bool-cases (tag == 255)) [
      | inl nested ↦ absurd (cc (rw nested at h))
      | inr single ↦
          let ((i, r), e, e2) =
            bind_inv (tagged (total - suc (length b)) tag b) _ (is, rest) (rw single at h) in
          let (valid, written) = tagged-IsBack (total - suc (length b)) tag b r i ht single hb e in
          let p =
            list_loop_inv n total start r (out ++ i ∷ []) is rest
              (All-behind (item_bytes i) r (tag ∷ b) written (ht, hb)) e2 in
          record {
            more = i ∷ p.more;
            added = p.added ∙ append_assoc out (i ∷ []) p.more;
            valid = (valid, p.valid);
            counted = ap suc p.counted;
            written =
                append_assoc (item_bytes i) (items_bytes p.more) rest
                ∙ ap (λ t. item_bytes i ++ t) p.written
                ∙ written;
          }
    ]

item_inv :
    (total tag : ℕ) (b rest : Bytes) (v : Val)
    → tag < 256
    → All IsByte b
    → item total tag b ≡ ok (v, rest)
    → IsVal v × (val_bytes v ++ rest ≡ tag ∷ b)
unfolding item val_bytes
item_inv total tag b rest v ht hb h = elim (Bool-cases (tag == 255)) [
  | inr single ↦
      let ((i, r), e, e2) =
        bind_inv (tagged (total - suc (length b)) tag b) _ (v, rest) (rw single at h) in
      let back = tagged-IsBack (total - suc (length b)) tag b r i ht single hb e in
      let val_is : k_item i ≡ v = cc e2 in
      let rest_is : r ≡ rest = cc e2 in
      subst (λ w. IsVal w × (val_bytes w ++ rest ≡ tag ∷ b)) val_is
        (subst (λ t. IsItem i × (item_bytes i ++ t ≡ tag ∷ b)) rest_is back)
  | inl listed ↦
      let start = total - suc (length b) in
      let ((n, r), e, e2) = bind_inv (read_length start b) _ (v, rest) (rw listed at h) in
      let (size, held, counted) = read_length_inv start n b r hb e in
      let ((is, behind), e3, e4) = bind_inv (list_loop n total start r []) _ (v, rest) e2 in
      let p =
        list_loop_inv n total start r [] is behind (All-behind (uvarint_bytes n) r b counted hb)
          e3 in
      let val_is : k_list is ≡ v = cc e4 in
      let rest_is : behind ≡ rest = cc e4 in
      let more_is : k_list p.more ≡ v = ap k_list (sym p.added) ∙ val_is in
      subst (λ w. IsVal w × (val_bytes w ++ rest ≡ tag ∷ b)) more_is
        (
          (p.valid, omega (arith, size, p.counted)),
          ap (λ t. t ∷ ((uvarint_bytes (length p.more) ++ items_bytes p.more) ++ rest))
                (sym ((==_iff tag 255).0 listed))
              ∙ ap (λ t. tag ∷ t)
                  (append_assoc (uvarint_bytes (length p.more)) (items_bytes p.more) rest
                    ∙ ap (λ m. uvarint_bytes m ++ (items_bytes p.more ++ rest)) p.counted
                    ∙ ap (λ t. uvarint_bytes n ++ (items_bytes p.more ++ t)) (sym rest_is)
                    ∙ ap (λ t. uvarint_bytes n ++ t) p.written
                    ∙ counted),
        )
]

val_bytes-long : (v : Val) → IsVal v → 1 ≤ length (val_bytes v)
unfolding val_bytes
val_bytes-long (k_item i) h = let c = item_bytes-IsCoded i [] h in omega (arith, ap length c.shape)
val_bytes-long (k_list is) h = omega arith

record IsDecoded (b : Bytes) (out vs : List Val) : Type 0 where
  more : List Val
  added : vs ≡ out ++ more
  valid : All IsVal more
  written : encode more ≡ b

decode_loop_inv :
    (fuel total : ℕ) (b : Bytes) (out vs : List Val)
    → length b ≤ fuel
    → All IsByte b
    → decode_loop fuel total b out ≡ ok vs
    → IsDecoded b out vs
unfolding decode_loop encode
decode_loop_inv fuel total [] out vs hf hb h =
    let rows : out ≡ vs = cc h in
    record { more = []; added = sym rows ∙ sym (append-nil out); valid = tt; written = refl }
decode_loop_inv zero total (tag ∷ b) out vs hf hb h = absurd (omega arith)
decode_loop_inv (suc fuel) total (tag ∷ b) out vs hf (ht, hb) h =
    let ((v, r), e, e2) = bind_inv (item total tag b) _ vs h in
    let (valid, written) = item_inv total tag b r v ht hb e in
    let p =
      decode_loop_inv fuel total r (out ++ v ∷ []) vs
        (omega (arith, ap length written, length-append (val_bytes v) r, val_bytes-long v valid))
        (All-behind (val_bytes v) r (tag ∷ b) written (ht, hb)) e2 in
    record {
      more = v ∷ p.more;
      added = p.added ∙ append_assoc out (v ∷ []) p.more;
      valid = (valid, p.valid);
      written = ap (λ t. val_bytes v ++ t) p.written ∙ written;
    }

-- What Decode accepts from a byte slice is a row of values that keep the rules, and the slice is what
-- Encode writes for them, so every row has one form.
pub encode-decode :
    (b : Bytes) (vs : List Val) → All IsByte b → decode b ≡ ok vs → All IsVal vs × (encode vs ≡ b)
unfolding decode
encode-decode b vs hb h =
    let p = decode_loop_inv (length b) (length b) b [] vs (omega arith) hb h in
    subst (λ us. All IsVal us × (encode us ≡ b)) (sym p.added) (p.valid, p.written)
