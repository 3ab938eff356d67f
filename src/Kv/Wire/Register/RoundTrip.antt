-- ===== src/Kv/Wire/Register/RoundTrip.antt =====
-- ParseRegister against RegisterPayload, both ways.
use Prim.Native.Nat.{bit_and}
use repani.Base.{
  ℕ, zero, suc, ◌<◌, ◌≡◌, ◌⊎◌, inl, inr, refl, Bool, true, false, ◌||◌, not, [], ◌∷◌, ◌++◌, length,
  take, get_or, get_or-append_end, length-append, length-take, take-append, take_all, Bytes, All,
  IsByte, ok, ◌==◌, if◌then◌else◌, Bool-cases, ap, arith,
}
use repani.Kv.Vault.Sizes.{auth_key_size}
use repani.Kv.Wire.Register.{register_payload, parse_register}

-- ParseRegister reads back the 16-byte AuthKey and the flag from what RegisterPayload wrote.
pub parse_register-register_payload :
    (ak : Bytes) (ephemeral : Bool)
    → length ak ≡ auth_key_size
    → parse_register (register_payload ak ephemeral) ≡ ok (ak, ephemeral)
unfolding parse_register register_payload
parse_register-register_payload ak false n = rw (n, take_all 16 ak (omega arith)) refl
parse_register-register_payload ak true n =
    rw (length-append ak (1 ∷ []), n, get_or-append_end 16 ak 1 0 n, take-append 16 ak (1 ∷ []) n)
      refl

-- A byte is 0 or 1, or it has another flag set.
abbrev is_told_apart : ℕ → Bool
is_told_apart f = (f == 0 || f == 1) || not (bit_and f 0xfe == 0)

told_apart_to : ℕ → Bool
told_apart_to zero = true
told_apart_to (suc last) = if is_told_apart last then told_apart_to last else false

told_apart_at : (f n : ℕ) → f < n → told_apart_to n ≡ true → is_told_apart f ≡ true
unfolding told_apart_to
told_apart_at f zero less all = absurd (omega arith)
told_apart_at f (suc last) less all = elim (Bool-cases (f == last)) [
  | inl here ↦ ground arith
  | inr before ↦ ground (arith, told_apart_at f last)
]

-- A flags byte with no unknown bit is 0 or 1.
known_flag : (flags : ℕ) → flags < 256 → bit_and flags 0xfe ≡ 0 → (flags ≡ 0) ⊎ (flags ≡ 1)
unfolding told_apart_to
known_flag flags h z = ground (arith, told_apart_at flags 256 h refl)

last_byte : (n : ℕ) (xs : Bytes) → length xs ≡ suc n → take n xs ++ get_or xs n 0 ∷ [] ≡ xs
last_byte zero [] h = absurd (omega arith)
last_byte zero (x ∷ []) h = refl
last_byte zero (x ∷ y ∷ xs) h = absurd (omega arith)
last_byte (suc n) [] h = absurd (omega arith)
last_byte (suc n) (x ∷ xs) h = ap (λ t. x ∷ t) (last_byte n xs (omega arith))

get_or-IsByte : (n : ℕ) (xs : Bytes) → All IsByte xs → get_or xs n 0 < 256
get_or-IsByte n [] h = omega arith
get_or-IsByte zero (x ∷ xs) (h, hs) = h
get_or-IsByte (suc n) (x ∷ xs) (h, hs) = get_or-IsByte n xs hs

-- What ParseRegister accepts from a byte slice is a 16-byte AuthKey whose payload is that slice, or,
-- for a vault that is not ephemeral, also the key with a flags byte of zero, which RegisterPayload
-- never writes.
pub register_payload-parse_register :
    (payload ak : Bytes) (ephemeral : Bool)
    → All IsByte payload
    → parse_register payload ≡ ok (ak, ephemeral)
    → (length ak ≡ auth_key_size)
      × ((register_payload ak ephemeral ≡ payload)
          ⊎ ((ephemeral ≡ false) × (payload ≡ ak ++ 0 ∷ [])))
unfolding parse_register register_payload
register_payload-parse_register payload ak ephemeral hb h =
    elim (Bool-cases (length payload == 16)) [
      | inl e ↦ ground (arith, length-take 16 payload, take_all 16 payload (ground arith))
      | inr e ↦
          let n : length payload ≡ 17 = ground arith in
          let z : bit_and (get_or payload 16 0) 0xfe ≡ 0 = ground arith in
          ground (
            arith,
            length-take 16 payload,
            last_byte 16 payload n,
            known_flag (get_or payload 16 0) (get_or-IsByte 16 payload hb) z,
          )
    ]
