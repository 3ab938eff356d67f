-- ===== src/Base/Lists.antt =====
-- Lists measured and indexed by native numbers, under the library's names.
use Prim.Native.Nat.{ℕ, zero, suc, ◌+◌, ◌-◌, ◌≤◌, ◌<◌, min}
use mathlib.Core.Path.{◌≡◌, refl, ap, ap₂}
use mathlib.Core.List.{List, [], ◌∷◌, ◌++◌, map}
use mathlib.Core.Option.{Option, none, some}
use native.Mathlib.Omega.{arith}

module _ {ℓ} {A : Type ℓ} where
  abbrev pub length : List A → ℕ
  length [] = 0
  length (x ∷ xs) = suc (length xs)

  abbrev pub get_elem? : List A → ℕ → Option A
  get_elem? [] i = none
  get_elem? (x ∷ xs) zero = some x
  get_elem? (x ∷ xs) (suc i) = get_elem? xs i

  abbrev pub get_or : List A → ℕ → A → A
  get_or [] i d = d
  get_or (x ∷ xs) zero d = x
  get_or (x ∷ xs) (suc i) d = get_or xs i d

  abbrev pub take : ℕ → List A → List A
  take zero xs = []
  take (suc n) [] = []
  take (suc n) (x ∷ xs) = x ∷ take n xs

  abbrev pub drop : ℕ → List A → List A
  drop zero xs = xs
  drop (suc n) [] = []
  drop (suc n) (x ∷ xs) = drop n xs

  abbrev pub replicate : ℕ → A → List A
  replicate zero a = []
  replicate (suc n) a = a ∷ replicate n a

  abbrev pub All {κ} : (A → Type κ) → List A → Type κ
  All P [] = Unit {κ}
  All P (x ∷ xs) = P x × All P xs

module _ {ℓ} {A : Type ℓ} where
  pub length-append : (xs ys : List A) → length (xs ++ ys) ≡ length xs + length ys
  length-append [] ys = omega arith
  length-append (x ∷ xs) ys = omega (arith, length-append xs ys)

  pub length-take : (n : ℕ) (xs : List A) → length (take n xs) ≡ min n (length xs)
  length-take zero xs = omega arith
  length-take (suc n) [] = omega arith
  length-take (suc n) (x ∷ xs) = omega (arith, length-take n xs)

  pub length-drop : (n : ℕ) (xs : List A) → length (drop n xs) ≡ length xs - n
  length-drop zero xs = omega arith
  length-drop (suc n) [] = omega arith
  length-drop (suc n) (x ∷ xs) = omega (arith, length-drop n xs)

  pub length-replicate : (n : ℕ) (a : A) → length (replicate n a) ≡ n
  length-replicate zero a = refl
  length-replicate (suc n) a = ap suc (length-replicate n a)

  pub take-append-drop : (n : ℕ) (xs : List A) → take n xs ++ drop n xs ≡ xs
  take-append-drop zero xs = refl
  take-append-drop (suc n) [] = refl
  take-append-drop (suc n) (x ∷ xs) = ap (λ t. x ∷ t) (take-append-drop n xs)

  -- The end `n` is a variable, since a length is stuck at a variable list.
  pub take-append : (n : ℕ) (xs ys : List A) → length xs ≡ n → take n (xs ++ ys) ≡ xs
  take-append zero [] ys h = refl
  take-append (suc n) [] ys h = absurd (omega arith)
  take-append zero (x ∷ xs) ys h = absurd (omega arith)
  take-append (suc n) (x ∷ xs) ys h = ap (λ t. x ∷ t) (take-append n xs ys (omega arith))

  pub drop-append : (n : ℕ) (xs ys : List A) → length xs ≡ n → drop n (xs ++ ys) ≡ ys
  drop-append zero [] ys h = refl
  drop-append (suc n) [] ys h = absurd (omega arith)
  drop-append zero (x ∷ xs) ys h = absurd (omega arith)
  drop-append (suc n) (x ∷ xs) ys h = drop-append n xs ys (omega arith)

  -- A cut behind `xs`, and one inside it.
  pub take-append_past :
      (n k : ℕ) (xs ys : List A) → length xs + k ≡ n → take n (xs ++ ys) ≡ xs ++ take k ys
  take-append_past n k [] ys h = ap (λ i. take i ys) (let e : n ≡ k = omega arith in e)
  take-append_past zero k (x ∷ xs) ys h = absurd (omega arith)
  take-append_past (suc n) k (x ∷ xs) ys h =
      ap (λ t. x ∷ t) (take-append_past n k xs ys (omega arith))

  pub take-append_inside : (n : ℕ) (xs ys : List A) → n ≤ length xs → take n (xs ++ ys) ≡ take n xs
  take-append_inside zero xs ys h = refl
  take-append_inside (suc n) [] ys h = absurd (omega arith)
  take-append_inside (suc n) (x ∷ xs) ys h =
      ap (λ t. x ∷ t) (take-append_inside n xs ys (omega arith))

  pub take-take : (k n : ℕ) (xs : List A) → k ≤ n → take k (take n xs) ≡ take k xs
  take-take zero n xs h = refl
  take-take (suc k) zero xs h = absurd (omega arith)
  take-take (suc k) (suc n) [] h = refl
  take-take (suc k) (suc n) (x ∷ xs) h = ap (λ t. x ∷ t) (take-take k n xs (omega arith))

  pub take_all : (n : ℕ) (xs : List A) → length xs ≤ n → take n xs ≡ xs
  take_all zero [] h = refl
  take_all (suc n) [] h = refl
  take_all zero (x ∷ xs) h = absurd (omega arith)
  take_all (suc n) (x ∷ xs) h = ap (λ t. x ∷ t) (take_all n xs (omega arith))

  pub drop_all : (n : ℕ) (xs : List A) → length xs ≤ n → drop n xs ≡ []
  drop_all zero [] h = refl
  drop_all (suc n) [] h = refl
  drop_all zero (x ∷ xs) h = absurd (omega arith)
  drop_all (suc n) (x ∷ xs) h = drop_all n xs (omega arith)

  pub drop-drop : (m n k : ℕ) (xs : List A) → n + m ≡ k → drop m (drop n xs) ≡ drop k xs
  drop-drop m zero k xs e = ap (λ i. drop i xs) (let e' : m ≡ k = omega arith in e')
  drop-drop m (suc n) zero xs e = absurd (omega arith)
  drop-drop zero (suc n) (suc k) [] e = refl
  drop-drop (suc m) (suc n) (suc k) [] e = refl
  drop-drop m (suc n) (suc k) (x ∷ xs) e = drop-drop m n k xs (omega arith)

  pub All-append {κ} : (P : A → Type κ) (xs ys : List A) → All P xs → All P ys → All P (xs ++ ys)
  All-append P [] ys h k = k
  All-append P (x ∷ xs) ys (h, hs) k = (h, All-append P xs ys hs k)

  pub All-take {κ} : (P : A → Type κ) (n : ℕ) (xs : List A) → All P xs → All P (take n xs)
  All-take P zero xs h = tt
  All-take P (suc n) [] h = tt
  All-take P (suc n) (x ∷ xs) (h, hs) = (h, All-take P n xs hs)

  pub All-drop {κ} : (P : A → Type κ) (n : ℕ) (xs : List A) → All P xs → All P (drop n xs)
  All-drop P zero xs h = h
  All-drop P (suc n) [] h = tt
  All-drop P (suc n) (x ∷ xs) (h, hs) = All-drop P n xs hs

  pub get_or-append :
      (j : ℕ) (xs ys : List A) (d : A) → j < length xs → get_or (xs ++ ys) j d ≡ get_or xs j d
  get_or-append j [] ys d h = absurd (omega arith)
  get_or-append zero (x ∷ xs) ys d h = refl
  get_or-append (suc j) (x ∷ xs) ys d h = get_or-append j xs ys d (omega arith)

  pub get_or-append_end :
      (n : ℕ) (xs : List A) (y d : A) → length xs ≡ n → get_or (xs ++ y ∷ []) n d ≡ y
  get_or-append_end zero [] y d h = refl
  get_or-append_end (suc n) [] y d h = absurd (omega arith)
  get_or-append_end zero (x ∷ xs) y d h = absurd (omega arith)
  get_or-append_end (suc n) (x ∷ xs) y d h = get_or-append_end n xs y d (omega arith)

  pub All-map_lem {κ μ} :
      (P : A → Type κ) (Q : A → Type μ) (xs : List A) → ((x : A) → P x → Q x) → All P xs → All Q xs
  All-map_lem P Q [] f h = tt
  All-map_lem P Q (x ∷ xs) f (h, hs) = (f x h, All-map_lem P Q xs f hs)

module _ {ℓ κ} {A : Type ℓ} {B : Type κ} where
  pub map_congr {μ} :
      (P : A → Type μ) (f g : A → B) (xs : List A)
      → ((x : A) → P x → f x ≡ g x)
      → All P xs
      → map f xs ≡ map g xs
  map_congr P f g [] e h = refl
  map_congr P f g (x ∷ xs) e (h, hs) = ap₂ (λ a b. a ∷ b) (e x h) (map_congr P f g xs e hs)

pub length-zero {ℓ} : {A : Type ℓ} (xs : List A) → length xs ≡ 0 → xs ≡ []
length-zero [] h = refl
length-zero (x ∷ xs) h = absurd (omega (arith, h))
