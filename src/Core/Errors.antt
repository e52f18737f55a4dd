-- ===== src/Core/Errors.antt =====
-- backend/src/core/errors.py and the domain exceptions of the packages. A call that may raise
-- returns a `Result`; an exception is its class, the message is left out.
use onwlms.Prelude.{◌≡◌, refl, ◌⊎◌, inl, inr, Bool, true, false, Option, none, some}

pub data AppError : Type 0 where
  authorization not_found conflict validation external_service : AppError
  -- admissions/domain/exceptions.py
  admissions_rule application_transition quota_unavailable enrollment_conversion : AppError
  -- entitlements/domain/exceptions.py
  invalid_entitlement entitlement_not_found entitlement_conflict : AppError
  -- scheduling/domain/exceptions.py
  scheduling_rule scheduling_conflict schedule_version_conflict : AppError
  -- academics/domain/exceptions.py
  academic_rule course_selection course_selection_decision enrollment_transition : AppError
  -- grading/domain/exceptions.py
  grading_rule grade_revision_conflict : AppError
  -- Python's own `ValueError`, as of `max` without a value
  value_error : AppError

pub data Result {ℓ} (A : Type ℓ) : Type ℓ where
  ok : A → Result A
  err : AppError → Result A

module _ {ℓ κ} {A : Type ℓ} {B : Type κ} where
  infixl 5 ◌>>=◌
  -- An exception ends the call; otherwise the rest of the body runs on the value.
  abbrev pub ◌>>=◌ : Result A → (A → Result B) → Result B
  err raised >>= rest = err raised
  ok value >>= rest = rest value

  -- A call that returns has had each of its parts return.
  pub >>=-eq-ok :
      (first : Result A) (rest : A → Result B) {b : B}
      → (first >>= rest) ≡ ok b
      → (value : A) × (first ≡ ok value) × (rest value ≡ ok b)
  >>=-eq-ok (err raised) rest returns = cc
  >>=-eq-ok (ok value) rest returns = (value, refl, returns)

infixl 5 ◌>>◌
-- A statement without a value, and the rest of the body.
abbrev pub ◌>>◌ {ℓ} : {A : Type ℓ} → Result (Unit {0}) → Result A → Result A
statement >> rest = statement >>= λ _. rest

-- `if test: raise error`
abbrev pub raise_if : Bool → AppError → Result (Unit {0})
raise_if true e = err e
raise_if false e = ok tt

-- `if value is None: raise error`, and the value after it
abbrev pub or_raise {ℓ} : {A : Type ℓ} → Option A → AppError → Result A
or_raise none e = err e
or_raise (some a) e = ok a

pub Result-cases {ℓ} :
    {A : Type ℓ} (r : Result A) → ((a : A) × (r ≡ ok a)) ⊎ ((e : AppError) × (r ≡ err e))
Result-cases (ok a) = inl (a, refl)
Result-cases (err e) = inr (e, refl)
