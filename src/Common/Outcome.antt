-- ===== src/Common/Outcome.antt =====
-- The result of code that can throw. What is thrown is one type, since a caught exception carries
-- no type in the source.
use mathlib.Core.Bool.{Bool, true, false}
use mathlib.Core.Path.{◌≡◌, refl}
use mathlib.Core.Logic.{◌⊎◌, inl, inr}

-- `Error`s that the decimal utility throws.
pub data DecimalFault : Type 0 where
  invalid_decimal_string negative_operand empty_sum zero_divisor : DecimalFault

-- The input that a `CalculationError` names.
pub data Field : Type 0 where
  opening_quantity opening_cost amount price fee : Field

-- The codes of `CalculationError`.
pub data CalculationFault : Type 0 where
  invalid_input invalid_date negative_quantity negative_amount negative_price negative_fee
        missing_price insufficient_quantity unsupported_transaction_type :
      CalculationFault
  invalid_decimal : Field → CalculationFault

-- The values that `throw` statements of the modelled code raise.
pub data Fault : Type 0 where
  decimal : DecimalFault → Fault
  calculation : CalculationFault → Fault
  -- A read of a property of `undefined`.
  type_error : Fault

-- A call throws, or it returns a value.
pub data Result {ℓ} (Value : Type ℓ) : Type ℓ where
  err : (fault : Fault) → Result Value
  ok : (value : Value) → Result Value

-- `if (bad) throw fault;`
abbrev pub throw_if : Bool → Fault → Result (Unit {0})
throw_if bad fault = elim bad [ true ↦ err fault | false ↦ ok tt ]

module _ {ℓ κ} {A : Type ℓ} {B : Type κ} where
  infixl 5 ◌>>=◌
  -- What follows a call runs only if the call returns.
  abbrev pub ◌>>=◌ : Result A → (A → Result B) → Result B
  err fault >>= next = err fault
  ok value >>= next = next value

module _ {κ} {B : Type κ} where
  infixl 5 ◌>>◌
  abbrev pub ◌>>◌ : Result (Unit {0}) → Result B → Result B
  check >> next = check >>= λ _. next

pub Result-cases {ℓ} :
    {A : Type ℓ} (call : Result A)
    → ((value : A) × (call ≡ ok value)) ⊎ ((fault : Fault) × (call ≡ err fault))
Result-cases (err fault) = inr (fault, refl)
Result-cases (ok value) = inl (value, refl)
