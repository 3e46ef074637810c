-- ===== src/Foundation/Outcomes.antt =====
-- Exceptions. An assertion (`assert`, NSAssert, NSParameterAssert) is an exception too: the debug
-- configuration stops there. `mp_invalid_argument` is MPInvalidArgumentException, `invalid_argument` is
-- NSInvalidArgumentException.
use feather.Common.{◌≡◌, refl, Bool, true, false}

pub data Exception : Type 0 where
  range invalid_argument assertion abstract_class abstract_method unexpected_state missing_filter
        mp_invalid_argument :
      Exception

pub data Outcome {ℓ} (A : Type ℓ) : Type ℓ where
  returned : A → Outcome A
  raised : Exception → Outcome A

infixl 5 ◌>>=◌ ◌>>◌
abbrev pub ◌>>=◌ {ℓ κ} : {A : Type ℓ} {B : Type κ} → Outcome A → (A → Outcome B) → Outcome B
returned a >>= f = f a
raised e >>= f = raised e

abbrev pub ◌>>◌ {ℓ} : {B : Type ℓ} → Outcome (Unit {0}) → Outcome B → Outcome B
m >> k = m >>= λ _. k

-- `assert(test)`
abbrev pub assert : Bool → Outcome (Unit {0})
assert true = returned tt
assert false = raised Exception.assertion

pub >>=-eq-returned {ℓ κ} :
    {A : Type ℓ} {B : Type κ} (m : Outcome A) (f : A → Outcome B) {b : B}
    → (m >>= f) ≡ returned b
    → (a : A) × (m ≡ returned a) × (f a ≡ returned b)
>>=-eq-returned (returned a) f h = (a, refl, h)
>>=-eq-returned (raised e) f h = cc
