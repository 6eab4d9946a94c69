-- ===== src/Result.antt =====
-- Fallible code with no effect: Go's `value, err` pairs. The error of a step ends the steps after it.
use denizen.Prelude.{◌≡◌, refl, ◌⊎◌, inl, inr, Bool, true, false, Option, none, some}
use denizen.Model.{Error, no_row}

pub data Result {ℓ} (A : Type ℓ) : Type ℓ where
  ok : A → Result A
  err : Error → Result A

-- `if failed { return e }`
abbrev pub fail_if : Bool → Error → Result (Unit {0})
fail_if true e = err e
fail_if false e = ok tt

-- The row of a query for one row: `scanOne`.
abbrev pub one_row {ℓ} : {A : Type ℓ} → Option A → Result A
one_row none = err no_row
one_row (some a) = ok a

-- `if err == repository.ErrNotFound { return e }; return err`
abbrev pub no_row_as {ℓ} : {A : Type ℓ} → Error → Result A → Result A
no_row_as e (err no_row) = err e
no_row_as e r = r

pub Result-cases {ℓ} :
    {A : Type ℓ} (r : Result A) → ((a : A) × (r ≡ ok a)) ⊎ ((e : Error) × (r ≡ err e))
Result-cases (ok a) = inl (a, refl)
Result-cases (err e) = inr (e, refl)

infixl 5 ◌>>=◌
-- Go's `value, err := step; if err != nil { return err }`, and the rest of the function.
abbrev pub ◌>>=◌ {ℓ κ} : {A : Type ℓ} → {B : Type κ} → Result A → (A → Result B) → Result B
err e >>= rest = err e
ok value >>= rest = rest value

-- Inversion of a step that succeeds.
pub >>=-eq-ok {ℓ κ} :
    {A : Type ℓ} {B : Type κ} (step : Result A) (rest : A → Result B) {b : B}
    → (step >>= rest) ≡ ok b
    → (value : A) × (step ≡ ok value) × (rest value ≡ ok b)
>>=-eq-ok (err e) rest h = cc
>>=-eq-ok (ok value) rest h = (value, refl, h)

infixl 5 ◌>>◌
abbrev pub ◌>>◌ {ℓ} : {B : Type ℓ} → Result (Unit {0}) → Result B → Result B
check >> rest = check >>= λ _. rest
