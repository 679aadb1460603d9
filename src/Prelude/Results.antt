-- ===== src/Prelude/Results.antt =====
-- Go's `(value, error)` where a caller reads the value only without an error.
use mathlib.Core.Path.{◌≡◌, refl}
use mathlib.Core.Logic.{◌⊎◌, inl, inr}
use native.Mathlib.Omega.{arith}
use Prim.Native.String.{String}

pub data Result {ℓ} (A : Type ℓ) : Type ℓ where
  err : String → Result A
  ok : A → Result A

-- `if err != nil { return err }`, and the rest.
unfoldable pub and_then {ℓ ℓ'} : {A : Type ℓ} {B : Type ℓ'} → Result A → (A → Result B) → Result B
and_then (err e) f = err e
and_then (ok a) f = f a

pub Result-cases {ℓ} :
    {A : Type ℓ} (r : Result A) → ((e : String) × (r ≡ err e)) ⊎ ((a : A) × (r ≡ ok a))
Result-cases (err e) = inl (e, refl)
Result-cases (ok a) = inr (a, refl)

pub and_then_lem {ℓ ℓ'} :
    {A : Type ℓ} {B : Type ℓ'} (r : Result A) (f : A → Result B) (b : B)
    → and_then r f ≡ ok b
    → (a : A) × (r ≡ ok a) × (f a ≡ ok b)
unfolding and_then
and_then_lem (ok a) f b h = (a, refl, h)
and_then_lem (err e) f b h = ground arith
