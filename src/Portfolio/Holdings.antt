-- ===== src/Portfolio/Holdings.antt =====
-- src/features/portfolio/domain/calculation/holdings.calculator.ts: the quantity held after a
-- ledger, with each disposal clamped to what is held.
pub mod Held
use nest_backend.Common.{
  List, [], ◌∷◌, Option, none, some, Bool, true, false, not, Result, ok, err, ◌>>=◌, if◌then◌else◌,
}
use nest_backend.Common.Text.{Text}
use nest_backend.Decimal.{sum_decimals, subtract_decimals, compare_decimals, zero_text}
use nest_backend.Portfolio.Types.{
  TransactionType, buy, sell, transfer_in, transfer_out, unsupported, CalculationTransaction,
}
use nest_backend.Portfolio.Validation.{is_above, is_below}

-- The same method of `HoldingsCalculator` and of `AverageCostCalculator`.
unfoldable pub clamp_disposal : Text → Text → Result Text
clamp_disposal quantity amount = do
  order ← compare_decimals amount quantity
  ok (if is_above order then quantity else amount)

-- One round of the loop; an unknown type is skipped.
unfoldable pub apply_quantity : TransactionType → Text → Text → Result Text
apply_quantity buy quantity amount = sum_decimals (quantity ∷ amount ∷ [])
apply_quantity transfer_in quantity amount = sum_decimals (quantity ∷ amount ∷ [])
apply_quantity sell quantity amount = do
  disposed ← clamp_disposal quantity amount
  subtract_decimals quantity disposed
apply_quantity transfer_out quantity amount = do
  disposed ← clamp_disposal quantity amount
  subtract_decimals quantity disposed
apply_quantity (unsupported type) quantity amount = ok quantity

abbrev pub quantity_loop : List CalculationTransaction → Text → Result Text
quantity_loop [] quantity = ok quantity
quantity_loop (transaction ∷ transactions) quantity = do
  next ← apply_quantity transaction.type quantity transaction.amount
  quantity_loop transactions next

abbrev pub get_or : Option Text → Text → Text
get_or none default = default
get_or (some value) default = value

unfoldable pub calculate_quantity : List CalculationTransaction → Option Text → Result Text
calculate_quantity transactions opening_quantity =
    quantity_loop transactions (get_or opening_quantity zero_text)

unfoldable pub validate_sell : Text → Text → Result Bool
validate_sell current_quantity sell_quantity = do
  order ← compare_decimals current_quantity sell_quantity
  ok (not (is_below order))
