-- ===== src/Portfolio/Validation.antt =====
-- src/features/portfolio/domain/calculation/cost-basis-validation.ts: the guards that every
-- strategy runs on its input.
pub mod Laws
use nest_backend.Common.{
  ◌∷◌, [], Bool, true, false, not, Option, none, some, Ordering, Result, ok, err, ◌>>=◌, ◌>>◌,
  throw_if, calculation, Field, negative_quantity, negative_amount, negative_price, negative_fee,
  missing_price, insufficient_quantity, unsupported_transaction_type, invalid_decimal,
}
use nest_backend.Common.Text.{Text}
use nest_backend.Decimal.{is_decimal_string, compare_decimals, zero_text}
use nest_backend.Portfolio.Types.{
  TransactionType, buy, sell, transfer_in, transfer_out, unsupported,
}

-- `c < 0`, `c <= 0` and `c > 0` for the result of a comparison.
abbrev pub is_below : Ordering → Bool
is_below Ordering.lt = true
is_below Ordering.eq = false
is_below Ordering.gt = false

abbrev pub is_above : Ordering → Bool
is_above Ordering.lt = false
is_above Ordering.eq = false
is_above Ordering.gt = true

unfoldable pub assert_supported_type : TransactionType → Result (Unit {0})
assert_supported_type buy = ok tt
assert_supported_type sell = ok tt
assert_supported_type transfer_in = ok tt
assert_supported_type transfer_out = ok tt
assert_supported_type (unsupported type) = err (calculation unsupported_transaction_type)

unfoldable pub assert_opening_quantity : Text → Result Text
assert_opening_quantity value = do
  throw_if (not (is_decimal_string value)) (calculation (invalid_decimal Field.opening_quantity))
  order ← compare_decimals value zero_text
  throw_if (is_below order) (calculation negative_quantity)
  ok value

unfoldable pub assert_opening_cost : Text → Result Text
assert_opening_cost value = do
  throw_if (not (is_decimal_string value)) (calculation (invalid_decimal Field.opening_cost))
  order ← compare_decimals value zero_text
  throw_if (is_below order) (calculation negative_amount)
  ok value

unfoldable pub assert_positive_amount : Text → Result Text
assert_positive_amount value = do
  throw_if (not (is_decimal_string value)) (calculation (invalid_decimal Field.amount))
  order ← compare_decimals value zero_text
  throw_if (not (is_above order)) (calculation negative_amount)
  ok value

-- The checks of a price that is present.
unfoldable pub assert_positive_price : Text → Result (Unit {0})
assert_positive_price value = do
  throw_if (not (is_decimal_string value)) (calculation (invalid_decimal Field.price))
  order ← compare_decimals value zero_text
  throw_if (not (is_above order)) (calculation negative_price)

unfoldable pub require_price : Option Text → Result Text
require_price none = err (calculation missing_price)
require_price (some value) = do assert_positive_price value; ok value

unfoldable pub assert_optional_price : Option Text → Result (Unit {0})
assert_optional_price none = ok tt
assert_optional_price (some value) = assert_positive_price value

unfoldable pub assert_fee : Option Text → Result (Unit {0})
assert_fee none = ok tt
assert_fee (some value) = do
  throw_if (not (is_decimal_string value)) (calculation (invalid_decimal Field.fee))
  order ← compare_decimals value zero_text
  throw_if (is_below order) (calculation negative_fee)

unfoldable pub assert_available : Text → Text → Result (Unit {0})
assert_available quantity amount = do
  order ← compare_decimals amount quantity
  throw_if (is_above order) (calculation insufficient_quantity)
