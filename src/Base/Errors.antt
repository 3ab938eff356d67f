-- ===== src/Base/Errors.antt =====
-- A Go (value, error) pair whose error type is `E`.
use mathlib.Core.Path.{◌≡◌, refl, ap}
use mathlib.Core.Logic.{◌⊎◌, inl, inr}
use mathlib.Core.Bool.{Bool, true, false}
use native.Mathlib.Omega.{arith}
use package.repani.Base.Tests.{if◌then◌else◌}

pub data Result {ℓ κ} (E : Type κ) (A : Type ℓ) : Type (ℓ ⊔ κ) where
  ok : A → Result E A
  err : E → Result E A

-- `if err != nil { return err }` between two steps.
infixl 5 ◌>>=◌
abbrev pub ◌>>=◌ {ℓ κ μ} :
    {E : Type μ} {A : Type ℓ} {B : Type κ} → Result E A → (A → Result E B) → Result E B
ok a >>= f = f a
err e >>= f = err e

-- The error of a callee under the caller's own error type.
abbrev pub map_err {ℓ κ μ} :
    {E : Type κ} {F : Type μ} {A : Type ℓ} → (E → F) → Result E A → Result F A
map_err f (ok a) = ok a
map_err f (err e) = err (f e)

pub Result-cases {ℓ κ} :
    {E : Type κ} {A : Type ℓ} (r : Result E A) → ((a : A) × (r ≡ ok a)) ⊎ ((e : E) × (r ≡ err e))
Result-cases (ok a) = inl (a, refl)
Result-cases (err e) = inr (e, refl)

abbrev value_or {ℓ κ} : {E : Type κ} {A : Type ℓ} → A → Result E A → A
value_or d (ok a) = a
value_or d (err e) = d

pub ok_injective {ℓ κ} :
    {E : Type κ} {A : Type ℓ} (a b : A) → ◌≡◌ {A = Result E A} (ok a) (ok b) → a ≡ b
ok_injective a b e = ap (value_or a) e

-- What a test and a step have given when the whole gives a value.
pub if-ok {ℓ κ} :
    {E : Type κ} {A : Type ℓ} (c : Bool) (r : Result E A) (x : E) (a : A)
    → (if c then r else err x) ≡ ok a
    → (c ≡ true) × (r ≡ ok a)
if-ok true r x a e = (refl, e)
if-ok false r x a e = ground arith

pub bind-ok {ℓ κ μ} :
    {E : Type μ} {A : Type ℓ} {B : Type κ} (r : Result E A) (f : A → Result E B) (b : B)
    → (r >>= f) ≡ ok b
    → (a : A) × ((r ≡ ok a) × (f a ≡ ok b))
bind-ok (ok a) f b e = (a, (refl, e))
bind-ok (err x) f b e = ground arith
