-- ===== src/Prelude/Outcome.antt =====
-- The outcome of a piece of C++: a value, undefined behaviour, or fuel that ran out.
use mathlib.Core.Path.{◌≡◌, refl}
use mathlib.Core.Bool.{Bool, true, false}

pub data Run {ℓ} (A : Type ℓ) : Type ℓ where
  returns : A → Run A
  -- A read or a write outside the memory of the object, or a call of `abort`.
  fault : Run A
  out_of_fuel : Run A

infixl 5 ◌>>=◌
abbrev pub ◌>>=◌ {ℓ κ} : {A : Type ℓ} {B : Type κ} → Run A → (A → Run B) → Run B
returns a >>= f = f a
fault >>= f = fault
out_of_fuel >>= f = out_of_fuel

-- The access happens only where the test passes.
abbrev pub in_bounds {ℓ} : {A : Type ℓ} → Bool → A → Run A
in_bounds true a = returns a
in_bounds false a = fault

pub >>=-eq-returns {ℓ κ} :
    {A : Type ℓ} {B : Type κ} (m : Run A) (f : A → Run B) {b : B}
    → (m >>= f) ≡ returns b
    → (a : A) × (m ≡ returns a) × (f a ≡ returns b)
>>=-eq-returns (returns a) f h = (a, refl, h)
>>=-eq-returns fault f h = cc
>>=-eq-returns out_of_fuel f h = cc
