-- ===== src/Portfolio/Validation/Laws.antt =====
-- The guards let every decimal of the right sign pass.
use nest_backend.Common.{
  ℕ, ◌<◌, ◌≤◌, ◌≡◌, refl, Option, none, some, arith, ok, err, calculation, insufficient_quantity,
}
use nest_backend.Common.Int.{pos}
use nest_backend.Common.Text.{Text}
use nest_backend.Decimal.Value.{Denotes}
use nest_backend.Decimal.Order.{compare-Denotes}
use nest_backend.Decimal.Laws.{zero_text-Denotes, is_decimal-Denotes}
use nest_backend.Portfolio.Validation.{
  assert_opening_quantity, assert_opening_cost, assert_positive_amount, assert_positive_price,
  assert_fee, assert_available, require_price, assert_optional_price,
}

-- A decimal greater than zero.
pub record IsPositive (t : Text) : Type 0 where
  pub amount : ℕ
  pub scale : ℕ
  pub positive : 0 < amount
  pub denotes : Denotes t (pos amount) scale

-- A fee is absent, or not negative.
abbrev pub IsFee : Option Text → Type 0
IsFee none = Unit
IsFee (some t) = (n : ℕ) × (k : ℕ) × Denotes t (pos n) k

abbrev pub IsOptionalPrice : Option Text → Type 0
IsOptionalPrice none = Unit
IsOptionalPrice (some t) = IsPositive t

pub assert_opening_quantity_lem :
    {t : Text} {n k : ℕ} → Denotes t (pos n) k → assert_opening_quantity t ≡ ok t
unfolding assert_opening_quantity
assert_opening_quantity_lem {t} {n} {k} h =
    rw (is_decimal-Denotes h, compare-Denotes (pos n) (pos 0) k h (zero_text-Denotes k))
      (ground arith)

pub assert_opening_cost_lem :
    {t : Text} {n k : ℕ} → Denotes t (pos n) k → assert_opening_cost t ≡ ok t
unfolding assert_opening_cost
assert_opening_cost_lem {t} {n} {k} h =
    rw (is_decimal-Denotes h, compare-Denotes (pos n) (pos 0) k h (zero_text-Denotes k))
      (ground arith)

pub assert_positive_amount_lem :
    {t : Text} {n k : ℕ} → Denotes t (pos n) k → 0 < n → assert_positive_amount t ≡ ok t
unfolding assert_positive_amount
assert_positive_amount_lem {t} {n} {k} h p =
    rw (is_decimal-Denotes h, compare-Denotes (pos n) (pos 0) k h (zero_text-Denotes k))
      (ground arith)

assert_positive_price_lem : {t : Text} → IsPositive t → assert_positive_price t ≡ ok tt
unfolding assert_positive_price
assert_positive_price_lem {t} h =
    rw
      (
        is_decimal-Denotes h.denotes,
        compare-Denotes (pos h.amount) (pos 0) h.scale h.denotes (zero_text-Denotes h.scale),
      )
      (ground arith)

pub require_price_lem : {t : Text} → IsPositive t → require_price (some t) ≡ ok t
unfolding require_price
require_price_lem h = rw (assert_positive_price_lem h)

pub assert_optional_price_lem :
    (price : Option Text) → IsOptionalPrice price → assert_optional_price price ≡ ok tt
unfolding assert_optional_price
assert_optional_price_lem none h = refl
assert_optional_price_lem (some t) h = assert_positive_price_lem h

pub assert_fee_lem : (fee : Option Text) → IsFee fee → assert_fee fee ≡ ok tt
unfolding assert_fee
assert_fee_lem none h = refl
assert_fee_lem (some t) (n, k, h) =
    rw (is_decimal-Denotes h, compare-Denotes (pos n) (pos 0) k h (zero_text-Denotes k))
      (ground arith)

-- A disposal passes exactly when no more is disposed of than is held.
pub assert_available_lem :
    {held amount : Text} {m n k : ℕ}
    → Denotes held (pos m) k
    → Denotes amount (pos n) k
    → n ≤ m
    → assert_available held amount ≡ ok tt
unfolding assert_available
assert_available_lem {m = m} {n = n} {k = k} h g le =
    rw (compare-Denotes (pos n) (pos m) k g h) (ground arith)

pub assert_available_short :
    {held amount : Text} {m n k : ℕ}
    → Denotes held (pos m) k
    → Denotes amount (pos n) k
    → m < n
    → assert_available held amount ≡ err (calculation insufficient_quantity)
unfolding assert_available
assert_available_short {m = m} {n = n} {k = k} h g lt =
    rw (compare-Denotes (pos n) (pos m) k g h) (ground arith)
