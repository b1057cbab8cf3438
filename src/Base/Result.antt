-- ===== src/Base/Result.antt =====
-- Python's exceptions: the classes that the modelled code raises, with their messages.
use mathlib.Core.Logic.{◌⊎◌, inl, inr}
use mathlib.Core.Path.{◌≡◌, refl}
use mathlib.Core.Bool.{Bool, cond}
use local_agent_cli.Base.Text.{Text}

pub data Error : Type 0 where
  value_error type_error key_error boundary_error file_not_found : Text → Error
  attribute_error runtime_error overflow_error : Text → Error

pub data Result {ℓ} (A : Type ℓ) : Type ℓ where
  err : Error → Result A
  ok : A → Result A

-- `str(exc)`
abbrev pub message : Error → Text
message (value_error t) = t
message (type_error t) = t
message (key_error t) = t
message (boundary_error t) = t
message (file_not_found t) = t
message (attribute_error t) = t
message (runtime_error t) = t
message (overflow_error t) = t

-- `if not test: raise error`
abbrev pub require : Bool → Error → Result (Unit {0})
require holds error = cond holds (ok tt) (err error)

-- To split on a computed result and keep the equation.
pub Result-cases {ℓ} :
    {A : Type ℓ} (r : Result A) → ((a : A) × (r ≡ ok a)) ⊎ ((e : Error) × (r ≡ err e))
Result-cases (ok a) = inl (a, refl)
Result-cases (err e) = inr (e, refl)

-- What follows a call that may raise: an exception ends it.
module _ {κ} {B : Type κ} where
  infixl 5 ◌>>=◌ ◌>>◌
  abbrev pub ◌>>=◌ {ℓ} : {A : Type ℓ} → Result A → (A → Result B) → Result B
  err raised >>= next = err raised
  ok value >>= next = next value

  abbrev pub ◌>>◌ : Result (Unit {0}) → Result B → Result B
  check >> next = check >>= λ done. next

  -- A chain that ends well went well so far.
  pub >>=-eq-ok {ℓ} :
      {A : Type ℓ} (r : Result A) (next : A → Result B) {b : B}
      → (r >>= next) ≡ ok b
      → (a : A) × (r ≡ ok a) × (next a ≡ ok b)
  >>=-eq-ok (err raised) next h = cc
  >>=-eq-ok (ok value) next h = (value, refl, h)
