-- ===== src/Row/Scalars.antt =====
-- The bytes that the decoder takes for an integer, a time, bytes or a float are the ones that the
-- encoder writes for it.
use repani.Base.{
  ℕ, ◌≡◌, inl, inr, ap, ◌∙◌, Bool, true, not, [], ◌∷◌, ◌++◌, append_assoc, All, length, take, drop,
  take-append-drop, length-take, Bytes, IsByte, get_le, get_le-lt, put_le-get_le, All-take, ltb,
  if◌then◌else◌, Bool-cases, Result, ok, ◌>>=◌, arith, tests,
}
use repani.Row.Int.{ℤ}
use repani.Row.Varint.{RowError, r003, uvarint, uvarint_bytes}
use repani.Row.Varint.RoundTrip.{uvarint_bytes-uvarint}
use repani.Row.Zigzag.{signed, signed_bytes, InRange}
use repani.Row.Zigzag.RoundTrip.{signed_bytes-signed}
use repani.Row.Value.{
  Item, k_decimal, k_float, k_time, k_bytes, float_ok, max_time, max_scale, IsItem,
}
use repani.Row.Encode.{item_bytes}
use repani.Row.Decode.{fail, read_length, decimal, float}
use repani.Row.Canonical.{bind_inv, IsBack, back, read_length_inv}

-- A kind whose payload is a signed number.
pub signed-IsBack :
    (k : ℤ → Item) (start tag : ℕ) (b rest : Bytes) (i : Item)
    → ((n : ℤ) → InRange n → IsItem (k n))
    → ((n : ℤ) → item_bytes (k n) ≡ tag ∷ signed_bytes n)
    → All IsByte b
    → ◌≡◌ {A = Result RowError (Item × Bytes)}
        (signed start b >>= (λ (n, r). ok (k n, r)))
        (ok (i, rest))
    → IsBack i tag b rest
signed-IsBack k start tag b rest i valid shape hb h =
    let ((n, r), e, e2) = bind_inv (signed start b) _ (i, rest) h in
    let (range, written) = signed_bytes-signed start n b r hb e in
    back i (k n) tag b r rest e2
      (valid n range, ap (λ t. t ++ r) (shape n) ∙ ap (λ t. tag ∷ t) written)

-- The same, where a test follows.
pub tested-IsBack :
    (k : ℤ → Item) (test : ℤ → Bool) (start tag : ℕ) (b rest : Bytes) (i : Item)
    → ((n : ℤ) → InRange n → test n ≡ true → IsItem (k n))
    → ((n : ℤ) → item_bytes (k n) ≡ tag ∷ signed_bytes n)
    → All IsByte b
    → ◌≡◌ {A = Result RowError (Item × Bytes)}
        (signed start b >>= (λ (n, r). if not (test n) then fail r003 start else ok (k n, r)))
        (ok (i, rest))
    → IsBack i tag b rest
unfolding fail
tested-IsBack k test start tag b rest i valid shape hb h =
    let ((n, r), e, e2) = bind_inv (signed start b) _ (i, rest) h in
    let (range, written) = signed_bytes-signed start n b r hb e in
    elim (Bool-cases (test n)) [
      | inr wrong ↦ absurd (cc (rw wrong at e2))
      | inl right ↦
          back i (k n) tag b r rest (rw right at e2)
            (valid n range right, ap (λ t. t ++ r) (shape n) ∙ ap (λ t. tag ∷ t) written)
    ]

pub time-IsBack :
    (start : ℕ) (b rest : Bytes) (i : Item)
    → All IsByte b
    → ◌≡◌ {A = Result RowError (Item × Bytes)}
        (uvarint start b
          >>= (λ (u, r). if ltb max_time u then fail r003 start else ok (k_time u, r)))
        (ok (i, rest))
    → IsBack i 251 b rest
unfolding fail item_bytes
time-IsBack start b rest i hb h =
    let ((u, r), e, e2) = bind_inv (uvarint start b) _ (i, rest) h in
    let (_, written) = uvarint_bytes-uvarint start u b r hb e in
    elim (Bool-cases (ltb max_time u)) [
      | inl late ↦ absurd (cc (rw late at e2))
      | inr within ↦
          back i (k_time u) 251 b r rest (rw within at e2) (omega tests, ap (λ t. 251 ∷ t) written)
    ]

pub bytes-IsBack :
    (start : ℕ) (b rest : Bytes) (i : Item)
    → All IsByte b
    → ◌≡◌ {A = Result RowError (Item × Bytes)}
        (read_length start b >>= (λ (n, r). ok (k_bytes (take n r), drop n r)))
        (ok (i, rest))
    → IsBack i 253 b rest
unfolding item_bytes
bytes-IsBack start b rest i hb h =
    let ((n, r), e, e2) = bind_inv (read_length start b) _ (i, rest) h in
    let (size, held, written) = read_length_inv start n b r hb e in
    let len : length (take n r) ≡ n = omega (arith, length-take n r) in
    back i (k_bytes (take n r)) 253 b (drop n r) rest e2 (
      omega (arith, len),
      ap (λ t. 253 ∷ t)
          (append_assoc (uvarint_bytes (length (take n r))) (take n r) (drop n r)
            ∙ ap (λ m. uvarint_bytes m ++ (take n r ++ drop n r)) len
            ∙ ap (λ t. uvarint_bytes n ++ t) (take-append-drop n r)
            ∙ written),
    )

pub decimal-IsBack :
    (start : ℕ) (b rest : Bytes) (i : Item)
    → All IsByte b
    → decimal start b ≡ ok (i, rest)
    → IsBack i 247 b rest
unfolding decimal fail item_bytes
decimal-IsBack start [] rest i hb h = absurd (cc h)
decimal-IsBack start (scale ∷ b) rest i (hs, hb) h = elim (Bool-cases (ltb max_scale scale)) [
  | inl above ↦ absurd (cc (rw above at h))
  | inr within ↦
      let ((n, r), e, e2) = bind_inv (signed start b) _ (i, rest) (rw within at h) in
      let (range, written) = signed_bytes-signed start n b r hb e in
      back i (k_decimal n scale) 247 (scale ∷ b) r rest e2
        ((range, omega tests), ap (λ t. 247 ∷ scale ∷ t) written)
]

pub float-IsBack :
    (start : ℕ) (b rest : Bytes) (i : Item)
    → All IsByte b
    → float start b ≡ ok (i, rest)
    → IsBack i 248 b rest
unfolding float fail item_bytes
float-IsBack start b rest i hb h = elim (Bool-cases (ltb (length b) 8)) [
  | inl short ↦ absurd (cc (rw short at h))
  | inr held ↦ elim (Bool-cases (float_ok (get_le (take 8 b)))) [
    | inr wrong ↦ absurd (cc (rw (held, wrong) at h))
    | inl right ↦
        let eight : length (take 8 b) ≡ 8 = omega (tests, length-take 8 b) in
        let bytes = All-take IsByte 8 b hb in
        back i (k_float (get_le (take 8 b))) 248 b (drop 8 b) rest (rw (held, right) at h) (
          (right, omega (arith, get_le-lt 8 (take 8 b) bytes eight)),
          ap (λ t. 248 ∷ (t ++ drop 8 b)) (put_le-get_le 8 (take 8 b) bytes eight)
              ∙ ap (λ t. 248 ∷ t) (take-append-drop 8 b),
        )
  ]
]
