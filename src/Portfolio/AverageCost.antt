-- ===== src/Portfolio/AverageCost.antt =====
-- src/features/portfolio/domain/calculation/average-cost.calculator.ts: all acquisition cost is
-- pooled, and a disposal releases a proportional share of it. A disposal of more than is held is cut
-- to what is held; the class comment of the source says that it fails.
pub mod Release
pub mod Ledger
pub mod Agreement
use nest_backend.Common.{
  ℕ, List, [], ◌∷◌, ◌++◌, Option, none, some, Bool, true, false, Ordering, Result, ok, err, ◌>>=◌,
  ◌>>◌, if◌then◌else◌, calculation, unsupported_transaction_type,
}
use nest_backend.Common.Text.{Text}
use nest_backend.Decimal.{
  sum_decimals, subtract_decimals, multiply_decimals, divide_decimals, compare_decimals, zero_text,
}
use nest_backend.Portfolio.Types.{
  TransactionType, buy, sell, transfer_in, transfer_out, unsupported, CalculationTransaction,
  RealizedPnlEvent, CostBasisOpeningState, CostBasisResult,
}
use nest_backend.Portfolio.Validation.{
  assert_supported_type, assert_opening_quantity, assert_opening_cost, assert_positive_amount,
  require_price, assert_optional_price, assert_fee,
}
use nest_backend.Portfolio.Holdings.{clamp_disposal}

-- `CALCULATION_DIVISION_MAX_FRACTION_DIGITS`
abbrev pub division_max_fraction_digits : ℕ
division_max_fraction_digits = 26

abbrev pub is_equal : Ordering → Bool
is_equal Ordering.lt = false
is_equal Ordering.eq = true
is_equal Ordering.gt = false

unfoldable pub release_proportional_basis : Text → Text → Text → Result Text
release_proportional_basis total_cost quantity amount = do
  cost_order ← compare_decimals total_cost zero_text
  let average_share = do
    average_cost ← divide_decimals total_cost quantity division_max_fraction_digits
    multiply_decimals amount average_cost
  let second_test = do
    amount_order ← compare_decimals amount zero_text
    if is_equal amount_order then ok zero_text else average_share
  if is_equal cost_order then ok zero_text else second_test

-- The variables of the loop.
pub record Pool : Type 0 where
  pub quantity : Text
  pub total_cost : Text
  pub realized_pnl : List RealizedPnlEvent

-- The `switch`, for a checked amount.
unfoldable pub apply_pooled : TransactionType → CalculationTransaction → Text → Pool → Result Pool
apply_pooled buy transaction amount pool = do
  price ← require_price transaction.price
  quantity ← sum_decimals (pool.quantity ∷ amount ∷ [])
  cost ← multiply_decimals amount price
  total_cost ← sum_decimals (pool.total_cost ∷ cost ∷ [])
  ok (record pool { quantity = quantity; total_cost = total_cost })
apply_pooled sell transaction amount pool = do
  price ← require_price transaction.price
  sold ← clamp_disposal pool.quantity amount
  released ← release_proportional_basis pool.total_cost pool.quantity sold
  proceeds ← multiply_decimals sold price
  quantity ← subtract_decimals pool.quantity sold
  total_cost ← subtract_decimals pool.total_cost released
  gain ← subtract_decimals proceeds released
  ok (record {
    quantity = quantity;
    total_cost = total_cost;
    realized_pnl =
        pool.realized_pnl
        ++ (record {
          transaction_id = transaction.id;
          occurred_at = transaction.occurred_at;
          amount = sold;
          price = price;
          proceeds = proceeds;
          released_cost_basis = released;
          realized_pnl = gain;
          fee = transaction.fee;
        })
          ∷ [];
  })
apply_pooled transfer_in transaction amount pool = do
  assert_optional_price transaction.price
  quantity ← sum_decimals (pool.quantity ∷ amount ∷ [])
  ok (record pool { quantity = quantity })
apply_pooled transfer_out transaction amount pool = do
  assert_optional_price transaction.price
  transferred ← clamp_disposal pool.quantity amount
  released ← release_proportional_basis pool.total_cost pool.quantity transferred
  quantity ← subtract_decimals pool.quantity transferred
  total_cost ← subtract_decimals pool.total_cost released
  ok (record pool { quantity = quantity; total_cost = total_cost })
apply_pooled (unsupported type) transaction amount pool = ok pool

-- One round of the loop.
unfoldable pub pooled_step : CalculationTransaction → Pool → Result Pool
pooled_step transaction pool = do
  assert_supported_type transaction.type
  amount ← assert_positive_amount transaction.amount
  assert_fee transaction.fee
  apply_pooled transaction.type transaction amount pool

abbrev pub pooled_loop : List CalculationTransaction → Pool → Result Pool
pooled_loop [] pool = ok pool
pooled_loop (transaction ∷ transactions) pool = do
  next ← pooled_step transaction pool
  pooled_loop transactions next

-- `AverageCostCalculator.calculate`
unfoldable pub calculate :
    List CalculationTransaction → CostBasisOpeningState → Result CostBasisResult
calculate transactions opening = do
  quantity ← assert_opening_quantity opening.quantity
  total_cost ← assert_opening_cost opening.total_cost
  pool ←
      pooled_loop transactions
        (record { quantity = quantity; total_cost = total_cost; realized_pnl = [] })
  ok (record {
    quantity = pool.quantity;
    total_cost = pool.total_cost;
    realized_pnl = pool.realized_pnl;
    lots = none;
  })
