-- ===== src/Row/Canonical.antt =====
-- What the decoder accepts for an item is what the encoder writes for it.
use repani.Base.{
  ℕ, ◌*◌, ◌^◌, ◌≡◌, ◌≤◌, ◌<◌, inl, inr, refl, sym, ap, subst, ◌∙◌, true, false, [], ◌∷◌, ◌++◌,
  append_assoc, All, length, take, drop, take-append-drop, length-take, Bytes, IsByte, ltb, leb,
  is_eq, compare_bytes, compare_bytes-eq, Bool-cases, Option, none, some, Result, ok, err, ◌>>=◌,
  arith, tests,
}
use repani.Lz4s.Decoder.{decompress}
use repani.Lz4s.Encoder.{compress}
use repani.Lz4s.Bounds.{length-undelta}
use repani.Row.Varint.{RowError, uvarint, uvarint_bytes}
use repani.Row.Varint.RoundTrip.{uvarint_bytes-uvarint}
use repani.Row.Zigzag.{max_int}
use repani.Row.Value.{Item, k_string, utf8_valid, IsItem}
use repani.Row.Encode.{item_bytes, string_bytes, smaller, max_short}
use repani.Row.Decode.{
  fail, length_within, read_length, str, long_string, decompressed, stream_string,
  compressed_string,
}

pub bind_inv {ℓ κ μ} :
    {E : Type μ} {A : Type ℓ} {B : Type κ} (r : Result E A) (f : A → Result E B) (y : B)
    → (r >>= f) ≡ ok y
    → (x : A) × (r ≡ ok x) × (f x ≡ ok y)
bind_inv (ok x) f y h = (x, refl, h)
bind_inv (err e) f y h = absurd (cc h)

-- The bytes `tag ∷ b` begin with those of a valid item, and `rest` is behind it.
abbrev pub IsBack : Item → ℕ → Bytes → Bytes → Type 0
IsBack i tag b rest = IsItem i × (item_bytes i ++ rest ≡ tag ∷ b)

pub back :
    (i j : Item) (tag : ℕ) (b r rest : Bytes)
    → ◌≡◌ {A = Result RowError (Item × Bytes)} (ok (j, r)) (ok (i, rest))
    → IsBack j tag b r
    → IsBack i tag b rest
back i j tag b r rest e h =
    let item_is : j ≡ i = cc e in
    let rest_is : r ≡ rest = cc e in
    subst (λ k. IsBack k tag b rest) item_is (subst (λ t. IsBack j tag b t) rest_is h)

pub All-behind : (xs ys b : Bytes) → xs ++ ys ≡ b → All IsByte b → All IsByte ys
All-behind xs ys b e h = go xs (subst (All IsByte) (sym e) h)
  where
    go : (xs : Bytes) → All IsByte (xs ++ ys) → All IsByte ys
    go [] h = h
    go (x ∷ xs) (hx, hs) = go xs hs

pub read_length_inv :
    (start n : ℕ) (b rest : Bytes)
    → All IsByte b
    → read_length start b ≡ ok (n, rest)
    → (n < 2 ^ 53) × (n ≤ length rest) × (uvarint_bytes n ++ rest ≡ b)
unfolding read_length length_within fail
read_length_inv start n b rest hb h =
    let ((u, r), e, e2) = bind_inv (uvarint start b) _ (n, rest) h in
    let (_, written) = uvarint_bytes-uvarint start u b r hb e in
    elim (Bool-cases (ltb max_int u)) [
      | inl beyond ↦ absurd (cc (rw beyond at e2))
      | inr small ↦ elim (Bool-cases (ltb (length r) u)) [
        | inl past ↦ absurd (cc (rw (small, past) at e2))
        | inr held ↦
            let e3 = rw (small, held) at e2 in
            let number : u ≡ n = cc e3 in
            let behind : r ≡ rest = cc e3 in
            (
              omega (tests, number),
              omega (tests, number, ap length behind),
              rw (← number, ← behind) written,
            )
      ]
    ]

-- A string read as it stands.
str_inv :
    (start n : ℕ) (b rest : Bytes) (i : Item)
    → n ≤ length b
    → str start n b ≡ ok (i, rest)
    → (s : Bytes) × (i ≡ k_string s)
      × (utf8_valid s ≡ true)
      × (length s ≡ n)
      × (s ≡ take n b)
      × (s ++ rest ≡ b)
unfolding str fail
str_inv start n b rest i hn h = elim (Bool-cases (utf8_valid (take n b))) [
  | inr broken ↦ absurd (cc (rw broken at h))
  | inl valid ↦
      let e = rw valid at h in
      let item_is : k_string (take n b) ≡ i = cc e in
      let rest_is : drop n b ≡ rest = cc e in
      (
        take n b,
        sym item_is,
        valid,
        omega (arith, length-take n b),
        refl,
        ap (λ t. take n b ++ t) (sym rest_is) ∙ take-append-drop n b,
      )
]

string-IsBack :
    (s : Bytes) (i : Item) (tag : ℕ) (b rest : Bytes)
    → i ≡ k_string s
    → utf8_valid s ≡ true
    → length s < 2 ^ 53
    → string_bytes s ++ rest ≡ tag ∷ b
    → IsBack i tag b rest
unfolding item_bytes
string-IsBack s i tag b rest is v size e = subst (λ k. IsBack k tag b rest) (sym is) ((v, size), e)

pub short-IsBack :
    (start tag : ℕ) (b rest : Bytes) (i : Item)
    → leb tag max_short ≡ true
    → tag ≤ length b
    → str start tag b ≡ ok (i, rest)
    → IsBack i tag b rest
unfolding string_bytes
short-IsBack start tag b rest i short hn h =
    let (s, is, v, len, _, split) = str_inv start tag b rest i hn h in
    let form : leb (length s) max_short ≡ true = ap (λ n. leb n max_short) len ∙ short in
    string-IsBack s i tag b rest is v (ground arith)
      (rw form (ap (λ t. t ∷ (s ++ rest)) len ∙ ap (λ t. tag ∷ t) split))

pub long-IsBack :
    (start n : ℕ) (b r rest : Bytes) (i : Item)
    → n < 2 ^ 53
    → n ≤ length r
    → uvarint_bytes n ++ r ≡ b
    → long_string start n r ≡ ok (i, rest)
    → IsBack i 254 b rest
unfolding string_bytes long_string fail
long-IsBack start n b r rest i size hn written h = elim (Bool-cases (leb n max_short)) [
  | inl short ↦ absurd (cc (rw short at h))
  | inr long ↦
      let ((j, behind), e, e2) = bind_inv (str start n r) _ (i, rest) (rw long at h) in
      elim (Bool-cases (smaller (length (compress (take n r))) n)) [
        | inl small ↦ absurd (cc (rw small at e2))
        | inr large ↦
            let e3 = rw large at e2 in
            let item_is : j ≡ i = cc e3 in
            let rest_is : behind ≡ rest = cc e3 in
            let (s, is, v, len, taken, split) = str_inv start n r behind j hn e in
            let form : leb (length s) max_short ≡ false = ap (λ n. leb n max_short) len ∙ long in
            let plain : smaller (length (compress s)) (length s) ≡ false =
              ap (λ t. smaller (length (compress t)) (length s)) taken
              ∙ ap (λ m. smaller (length (compress (take n r))) m) len
              ∙ large in
            string-IsBack s i 254 b rest (sym item_is ∙ is) v (omega (arith, len)) (
              rw (form, plain)
                (ap (λ t. 254 ∷ t)
                  (append_assoc (uvarint_bytes (length s)) s rest
                    ∙ ap (λ m. uvarint_bytes m ++ (s ++ rest)) len
                    ∙ ap (λ t. uvarint_bytes n ++ (s ++ t)) (sym rest_is)
                    ∙ ap (λ t. uvarint_bytes n ++ t) split
                    ∙ written)))
      ]
]

-- A decompressed text is a string whose compressed form has been read.
decompressed_inv :
    (start u c : ℕ) (stream r rest : Bytes) (i : Item) (text : Option Bytes)
    → decompressed start u c stream r text ≡ ok (i, rest)
    → (s : Bytes) × (text ≡ some s)
      × (i ≡ k_string s)
      × (utf8_valid s ≡ true)
      × (compress s ≡ stream)
      × (smaller c u ≡ true)
      × (r ≡ rest)
unfolding decompressed fail
decompressed_inv start u c stream r rest i none h = absurd (cc h)
decompressed_inv start u c stream r rest i (some s) h = elim (Bool-cases (utf8_valid s)) [
  | inr broken ↦ absurd (cc (rw broken at h))
  | inl valid ↦ elim (Bool-cases (is_eq (compare_bytes (compress s) stream))) [
    | inr other ↦ absurd (cc (rw (valid, other) at h))
    | inl same ↦ elim (Bool-cases (smaller c u)) [
      | inr plain ↦ absurd (cc (rw (valid, same, plain) at h))
      | inl small ↦
          let e = rw (valid, same, small) at h in
          let item_is : k_string s ≡ i = cc e in
          let rest_is : r ≡ rest = cc e in
          (
            s,
            refl,
            sym item_is,
            valid,
            compare_bytes-eq (compress s) stream (ground arith),
            small,
            rest_is,
          )
    ]
  ]
]

pub compressed-IsBack :
    (start u : ℕ) (b r rest : Bytes) (i : Item)
    → All IsByte r
    → uvarint_bytes u ++ r ≡ b
    → compressed_string start u r ≡ ok (i, rest)
    → IsBack i 242 b rest
unfolding string_bytes compressed_string stream_string fail decompress
compressed-IsBack start u b r rest i hb written h = elim (Bool-cases (ltb max_int u)) [
  | inl beyond ↦ absurd (cc (rw beyond at h))
  | inr small ↦
      let ((c, r2), e, e2) = bind_inv (read_length start r) _ (i, rest) (rw small at h) in
      let (_, held, counted) = read_length_inv start c r r2 hb e in
      elim (Bool-cases (leb u max_short)) [
        | inl short ↦ absurd (cc (rw short at e2))
        | inr long ↦ elim (Bool-cases (ltb (255 * c) u)) [
          | inl beyond ↦ absurd (cc (rw (long, beyond) at e2))
          | inr within ↦
              let (s, unpacked, is, v, packed, smaller_is, behind) =
                decompressed_inv start u c (take c r2) (drop c r2) rest i (decompress (take c r2) u)
                  (rw (long, within) at e2) in
              let len : length s ≡ u = length-undelta [] (take c r2) s u unpacked in
              let clen : length (compress s) ≡ c =
                ap length packed ∙ omega (arith, length-take c r2) in
              let form : leb (length s) max_short ≡ false = ap (λ n. leb n max_short) len ∙ long in
              let chosen : smaller (length (compress s)) (length s) ≡ true =
                ap (λ n. smaller n (length s)) clen ∙ ap (smaller c) len ∙ smaller_is in
              string-IsBack s i 242 b rest is v (omega (tests, len)) (
                rw (form, chosen)
                  (ap (λ t. 242 ∷ t)
                    (append_assoc (uvarint_bytes (length s))
                        (uvarint_bytes (length (compress s)) ++ compress s) rest
                      ∙ ap
                          (λ m.
                            uvarint_bytes m
                            ++ ((uvarint_bytes (length (compress s)) ++ compress s) ++ rest))
                          len
                      ∙ ap (λ t. uvarint_bytes u ++ t)
                          (append_assoc (uvarint_bytes (length (compress s))) (compress s) rest
                            ∙ ap (λ m. uvarint_bytes m ++ (compress s ++ rest)) clen
                            ∙ ap (λ t. uvarint_bytes c ++ (t ++ rest)) packed
                            ∙ ap (λ t. uvarint_bytes c ++ (take c r2 ++ t)) (sym behind)
                            ∙ ap (λ t. uvarint_bytes c ++ t) (take-append-drop c r2)
                            ∙ counted)
                      ∙ written)))
        ]
      ]
]
