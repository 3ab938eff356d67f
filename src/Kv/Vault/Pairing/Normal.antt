-- ===== src/Kv/Vault/Pairing/Normal.antt =====
-- What normalize leaves alone: its own results, cut anywhere, and base32 text.
use repani.Base.{
  ℕ, ◌<◌, ◌≡◌, refl, List, [], ◌∷◌, All, IsByte, All-take, All-drop, map, take, drop, Bytes, Option,
  none, some, arith,
}
use repani.Base.Base32.{digits, digit_char, encode_to_string}
use repani.Base.Base32.RoundTrip.{digits-small, all_below-at, reads_as, reads_as-some}
use repani.Kv.Vault.Pairing.{normal_char, keep, normalize}

pub IsNormal : ℕ → Type 0
IsNormal c = normal_char c ≡ some c

normal_char-IsNormal : (c d : ℕ) → normal_char c ≡ some d → normal_char d ≡ some d
unfolding normal_char
normal_char-IsNormal c d e = ground arith

pub normalize_fixes : (cs : Bytes) → All IsNormal cs → normalize cs ≡ cs
unfolding normalize keep IsNormal
normalize_fixes [] h = refl
normalize_fixes (c ∷ cs) (h, hs) = simp (h, normalize_fixes cs hs) refl

keep-IsNormal :
    (c : ℕ) (o : Option ℕ) (cs : Bytes)
    → normal_char c ≡ o
    → All IsNormal cs
    → All IsNormal (keep o cs)
unfolding keep IsNormal
keep-IsNormal c none cs e h = h
keep-IsNormal c (some d) cs e h = (normal_char-IsNormal c d e, h)

pub normalize-IsNormal : (cs : Bytes) → All IsNormal (normalize cs)
unfolding normalize
normalize-IsNormal [] = tt
normalize-IsNormal (c ∷ cs) =
    keep-IsNormal c (normal_char c) (normalize cs) refl (normalize-IsNormal cs)

pub normalize_idempotent : (cs : Bytes) → normalize (normalize cs) ≡ normalize cs
normalize_idempotent cs = normalize_fixes (normalize cs) (normalize-IsNormal cs)

pub normalize-take :
    (n : ℕ) (cs : Bytes) → normalize (take n (normalize cs)) ≡ take n (normalize cs)
normalize-take n cs =
    normalize_fixes (take n (normalize cs))
      (All-take IsNormal n (normalize cs) (normalize-IsNormal cs))

pub normalize-drop :
    (n : ℕ) (cs : Bytes) → normalize (drop n (normalize cs)) ≡ drop n (normalize cs)
normalize-drop n cs =
    normalize_fixes (drop n (normalize cs))
      (All-drop IsNormal n (normalize cs) (normalize-IsNormal cs))

digit_char-IsNormal : (d : ℕ) → d < 32 → IsNormal (digit_char d)
unfolding IsNormal normal_char digit_char
digit_char-IsNormal d h =
    reads_as-some (normal_char (digit_char d)) (digit_char d)
      (all_below-at (λ (x : ℕ). reads_as (normal_char (digit_char x)) (digit_char x)) 32 d refl h)

map-IsNormal : (ds : List ℕ) → All (λ (d : ℕ). d < 32) ds → All IsNormal (map digit_char ds)
map-IsNormal [] h = tt
map-IsNormal (d ∷ ds) (h, hs) = (digit_char-IsNormal d h, map-IsNormal ds hs)

pub encode_to_string-IsNormal : (bs : Bytes) → All IsByte bs → All IsNormal (encode_to_string bs)
unfolding encode_to_string
encode_to_string-IsNormal bs h = map-IsNormal (digits bs) (digits-small bs h)
