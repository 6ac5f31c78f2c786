-- ===== src/Errors.antt =====
-- backend/src/backend/domain/errors/domain_error.py: the error kinds, and the result of code that
-- may raise. Of a message only its kind is kept, and the `details` of an error are left out.
-- `value_error`, `integrity` and `multiple_results` are the ValueError of Python, and the
-- IntegrityError and MultipleResultsFound of SQLAlchemy.
use automated_short_drama.Prelude.{String, ◌≡◌, refl, Bool, true, false, if◌then◌else◌}

-- What a ConflictError or ValidationError says.
pub data Reason : Type 0 where
  illegal_transition other_worker bad_state final_state uncertain_result : Reason

pub data DomainError : Type 0 where
  not_found validation drama_mismatch value_error integrity multiple_results : DomainError
  conflict : Reason → DomainError
  configuration : DomainError
  external : (code : String) → DomainError

pub data Result {ℓ} (A : Type ℓ) : Type ℓ where
  err : DomainError → Result A
  ok : A → Result A

-- What follows a call that may raise.
infixl 5 ◌>>=◌
abbrev pub ◌>>=◌ {ℓ κ} :
    {Value : Type ℓ} {Next : Type κ} → Result Value → (Value → Result Next) → Result Next
err raised >>= next = err raised
ok value >>= next = next value

-- A chain that returned: its first call did, and so did the rest.
pub >>=-eq-ok {ℓ κ} :
    {Value : Type ℓ} {Next : Type κ} (first : Result Value) (next : Value → Result Next)
    {answer : Next}
    → (first >>= next) ≡ ok answer
    → (value : Value) × (first ≡ ok value) × (next value ≡ ok answer)
>>=-eq-ok (err raised) next h = cc
>>=-eq-ok (ok value) next h = (value, refl, h)

-- A check that did not raise, before the rest of a chain that returned.
pub guard-eq-ok {ℓ} :
    {Value : Type ℓ} (raises : Bool) (error : DomainError) {next : Result Value} {answer : Value}
    → (if raises then err error else next) ≡ ok answer
    → (raises ≡ false) × (next ≡ ok answer)
guard-eq-ok true error h = cc
guard-eq-ok false error h = (refl, h)

-- A check that held, at the end of a chain that returned.
pub accept-eq-ok {ℓ} :
    {Value : Type ℓ} (holds : Bool) (error : DomainError) {value answer : Value}
    → (if holds then ok value else err error) ≡ ok answer
    → (holds ≡ true) × (value ≡ answer)
accept-eq-ok true error h = (refl, cc)
accept-eq-ok false error h = cc
