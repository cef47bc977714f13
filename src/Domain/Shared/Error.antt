-- ===== src/Domain/Shared/Error.antt =====
-- domain/shared/errors.go: errors as values. `Context` is empty wherever the aggregates build an
-- error, so it is left out; a wrapped error is kept as its text.
use pyairtable_go_services.Prelude.{String, ◌≡◌, refl, List, Option, none, some}

pub record DomainError : Type 0 where
  pub code : String
  pub message : String
  pub cause : Option String

-- What a Go function of type `error` returns: a domain error, or one that `fmt.Errorf` formats, with
-- its format and its arguments, or with the error that it wraps.
pub data Error : Type 0 where
  domain : DomainError → Error
  errorf : String → List String → Error
  wrapped : String → Error → Error

-- A call that hands back a value: the value, an error, or a panic (a failed type assertion).
pub data Outcome {ℓ} (A : Type ℓ) : Type ℓ where
  ok : A → Outcome A
  fail : Error → Outcome A
  panic : Outcome A

infixl 5 ◌>>=◌
abbrev pub ◌>>=◌ {ℓ κ} : {A : Type ℓ} {B : Type κ} → Outcome A → (A → Outcome B) → Outcome B
ok a >>= f = f a
fail e >>= f = fail e
panic >>= f = panic

-- Where a chain of calls is ok, the first of them was, and what follows it was on its value.
pub >>=-eq-ok {ℓ κ} :
    {A : Type ℓ} {B : Type κ} (first : Outcome A) (then_do : A → Outcome B) {result : B}
    → (first >>= then_do) ≡ ok result
    → (value : A) × (first ≡ ok value) × (then_do value ≡ ok result)
>>=-eq-ok panic then_do done = cc
>>=-eq-ok (fail error) then_do done = cc
>>=-eq-ok (ok value) then_do done = (value, refl, done)

-- A type assertion on a payload's entry that panics where the entry does not fit.
abbrev pub or_panic {ℓ} : {A : Type ℓ} → Option A → Outcome A
or_panic none = panic
or_panic (some a) = ok a

abbrev pub new_domain_error : String → String → Option String → Error
new_domain_error c m cause = domain (record { code = c; message = m; cause = cause })

abbrev pub err_empty_value : String
err_empty_value = "value cannot be empty"

abbrev pub err_code_validation : String
err_code_validation = "VALIDATION_ERROR"

abbrev pub err_code_not_found : String
err_code_not_found = "NOT_FOUND"

abbrev pub err_code_already_exists : String
err_code_already_exists = "ALREADY_EXISTS"

abbrev pub err_code_conflict : String
err_code_conflict = "CONFLICT"

abbrev pub err_code_business_rule : String
err_code_business_rule = "BUSINESS_RULE_VIOLATION"

abbrev pub err_code_forbidden : String
err_code_forbidden = "FORBIDDEN"

abbrev pub err_code_internal : String
err_code_internal = "INTERNAL_ERROR"

-- `if err != nil { return nil, fmt.Errorf(format, err) }`
abbrev pub wrap {ℓ} : {A : Type ℓ} → String → Outcome A → Outcome A
wrap format (ok a) = ok a
wrap format (fail e) = fail (wrapped format e)
wrap format panic = panic
