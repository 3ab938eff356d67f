-- ===== src/Base/Base32/RoundTrip.antt =====
-- What base32 text decodes to: the bytes that were encoded, and how long it is.
use repani.Base.{
  ℕ, zero, suc, ◌+◌, ◌*◌, ◌/◌, ◌%◌, ◌<◌, ◌≡◌, refl, ap, ◌∙◌, Bool, true, false, List, [], ◌∷◌,
  Bytes, IsByte, All, length, map, ◌==◌, ◌&&◌, Option, none, some, inl, inr, Bool-cases, and-both,
  arith,
}
use repani.Base.Base32.{
  digit_char, index_from, char_digit, digits, first_byte, second_byte, third_byte, fourth_byte,
  fifth_byte, bytes, read_digits, encode_to_string, decode_string, encoded_len,
}

abbrev pub all_below : (ℕ → Bool) → ℕ → Bool
all_below p zero = true
all_below p (suc n) = p n && all_below p n

pub all_below-at : (p : ℕ → Bool) (n d : ℕ) → all_below p n ≡ true → d < n → p d ≡ true
all_below-at p zero d e h = absurd (omega (arith, h))
all_below-at p (suc n) d e h =
    let (last, below) = and-both (p n) (all_below p n) e in
    elim (Bool-cases (d == n)) [
      | inl same ↦ (let at : d ≡ n = ground arith in ap p at ∙ last)
      | inr other ↦ all_below-at p n d below (ground arith)
    ]

abbrev pub reads_as : Option ℕ → ℕ → Bool
reads_as none d = false
reads_as (some x) d = x == d

pub reads_as-some : (o : Option ℕ) (d : ℕ) → reads_as o d ≡ true → o ≡ some d
reads_as-some none d e = ground arith
reads_as-some (some x) d e = ap some (ground arith)

pub char_digit-digit_char : (d : ℕ) → d < 32 → char_digit (digit_char d) ≡ some d
unfolding char_digit digit_char index_from
char_digit-digit_char d h =
    reads_as-some (char_digit (digit_char d)) d
      (all_below-at (λ (x : ℕ). reads_as (char_digit (digit_char x)) x) 32 d refl h)

read_digits-map :
    (ds : List ℕ) → All (λ (d : ℕ). d < 32) ds → read_digits (map digit_char ds) ≡ some ds
unfolding read_digits
read_digits-map [] h = refl
read_digits-map (d ∷ ds) (h, hs) = rw (char_digit-digit_char d h, read_digits-map ds hs) refl

pub digits-small : (bs : Bytes) → All IsByte bs → All (λ (d : ℕ). d < 32) (digits bs)
unfolding digits
digits-small [] h = tt
digits-small (a ∷ []) (ha, _) = (omega arith, (omega arith, tt))
digits-small (a ∷ b ∷ []) (ha, (hb, _)) =
    (omega arith, (omega arith, (omega arith, (omega arith, tt))))
digits-small (a ∷ b ∷ c ∷ []) (ha, (hb, (hc, _))) =
    (omega arith, (omega arith, (omega arith, (omega arith, (omega arith, tt)))))
digits-small (a ∷ b ∷ c ∷ d ∷ []) (ha, (hb, (hc, (hd, _)))) = (
  omega arith,
  (omega arith, (omega arith, (omega arith, (omega arith, (omega arith, (omega arith, tt)))))),
)
digits-small (a ∷ b ∷ c ∷ d ∷ e ∷ rest) (ha, (hb, (hc, (hd, (he, hs))))) = (
  omega arith,
  (
    omega arith,
    (
      omega arith,
      (
        omega arith,
        (omega arith, (omega arith, (omega arith, (omega arith, digits-small rest hs)))),
      ),
    ),
  ),
)

first_byte-top : (a r : ℕ) → r < 4 → first_byte (a / 8) (a % 8 * 4 + r) ≡ a
first_byte-top a r h = omega arith

second_byte-middle :
    (q b r : ℕ) → b < 256 → r < 16 → second_byte (q * 4 + b / 64) (b / 2 % 32) (b % 2 * 16 + r) ≡ b
second_byte-middle q b r hb h = omega arith

third_byte-middle :
    (q c r : ℕ) → c < 256 → r < 2 → third_byte (q * 16 + c / 16) (c % 16 * 2 + r) ≡ c
third_byte-middle q c r hc h = omega arith

fourth_byte-middle :
    (q d r : ℕ) → d < 256 → r < 8 → fourth_byte (q * 2 + d / 128) (d / 4 % 32) (d % 4 * 8 + r) ≡ d
fourth_byte-middle q d r hd h = omega arith

fifth_byte-bottom : (q e : ℕ) → e < 256 → fifth_byte (q * 8 + e / 32) (e % 32) ≡ e
fifth_byte-bottom q e h = omega arith

bytes-digits : (bs : Bytes) → All IsByte bs → bytes (digits bs) ≡ bs
unfolding bytes digits
bytes-digits [] h = refl
bytes-digits (a ∷ []) h = ap (λ (x : ℕ). x ∷ []) (omega arith)
bytes-digits (a ∷ b ∷ []) (ha, (hb, _)) =
    let second : second_byte (a % 8 * 4 + b / 64) (b / 2 % 32) (b % 2 * 16) ≡ b = omega arith in
    simp (first_byte-top a (b / 64) (omega arith), second) refl
bytes-digits (a ∷ b ∷ c ∷ []) (ha, (hb, (hc, _))) =
    let third : third_byte (b % 2 * 16 + c / 16) (c % 16 * 2) ≡ c = omega arith in
    simp
      (
        first_byte-top a (b / 64) (omega arith),
        second_byte-middle (a % 8) b (c / 16) hb (omega arith),
        third,
      )
      refl
bytes-digits (a ∷ b ∷ c ∷ d ∷ []) (ha, (hb, (hc, (hd, _)))) =
    let fourth : fourth_byte (c % 16 * 2 + d / 128) (d / 4 % 32) (d % 4 * 8) ≡ d = omega arith in
    simp
      (
        first_byte-top a (b / 64) (omega arith),
        second_byte-middle (a % 8) b (c / 16) hb (omega arith),
        third_byte-middle (b % 2) c (d / 128) hc (omega arith),
        fourth,
      )
      refl
bytes-digits (a ∷ b ∷ c ∷ d ∷ e ∷ rest) (ha, (hb, (hc, (hd, (he, hs))))) =
    simp
      (
        first_byte-top a (b / 64) (omega arith),
        second_byte-middle (a % 8) b (c / 16) hb (omega arith),
        third_byte-middle (b % 2) c (d / 128) hc (omega arith),
        fourth_byte-middle (c % 16) d (e / 32) hd (omega arith),
        fifth_byte-bottom (d % 4) e he,
        bytes-digits rest hs,
      )
      refl

pub decode_string-encode_to_string :
    (bs : Bytes) → All IsByte bs → decode_string (encode_to_string bs) ≡ some bs
unfolding decode_string encode_to_string
decode_string-encode_to_string bs h =
    simp (decode_string, read_digits-map (digits bs) (digits-small bs h), bytes-digits bs h) refl

pub length-digits : (bs : Bytes) → length (digits bs) ≡ encoded_len (length bs)
unfolding digits
length-digits [] = refl
length-digits (a ∷ []) = refl
length-digits (a ∷ b ∷ []) = refl
length-digits (a ∷ b ∷ c ∷ []) = refl
length-digits (a ∷ b ∷ c ∷ d ∷ []) = refl
length-digits (a ∷ b ∷ c ∷ d ∷ e ∷ rest) = omega (arith, length-digits rest)

length-map : (f : ℕ → ℕ) (ds : List ℕ) → length (map f ds) ≡ length ds
length-map f [] = refl
length-map f (d ∷ ds) = ap suc (length-map f ds)

pub length-encode_to_string : (bs : Bytes) → length (encode_to_string bs) ≡ encoded_len (length bs)
unfolding encode_to_string
length-encode_to_string bs = length-map digit_char (digits bs) ∙ length-digits bs
