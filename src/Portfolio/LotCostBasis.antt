-- ===== src/Portfolio/LotCostBasis.antt =====
-- src/features/portfolio/domain/calculation/lot-cost-basis.calculator.ts: each acquisition is a lot,
-- and a disposal consumes lots from one end. `from_back` tells the two strategies apart.
pub mod Replay
pub mod Ledger
use nest_backend.Common.{
  ℕ, List, [], ◌∷◌, ◌++◌, Option, none, some, Bool, true, false, Result, ok, err, ◌>>=◌, ◌>>◌,
  if◌then◌else◌,
}
use nest_backend.Common.Text.{Text}
use nest_backend.Decimal.{
  sum_decimals, subtract_decimals, multiply_decimals, divide_decimals, compare_decimals, zero_text,
}
use nest_backend.Portfolio.Types.{
  TransactionType, buy, sell, transfer_in, transfer_out, unsupported, CalculationTransaction, Lot,
  RealizedPnlEvent, CostBasisOpeningState, CostBasisResult,
}
use nest_backend.Portfolio.Validation.{
  is_above, assert_supported_type, assert_opening_quantity, assert_opening_cost,
  assert_positive_amount, require_price, assert_optional_price, assert_fee, assert_available,
}
use nest_backend.Portfolio.LotStore.{LotStore, empty_store, push, push_all, consume, to_lots}
use nest_backend.Portfolio.AverageCost.{division_max_fraction_digits}

-- The variables of `calculate`.
pub record Queue : Type 0 where
  pub lots : LotStore
  pub quantity : Text
  pub total_cost : Text
  pub realized_pnl : List RealizedPnlEvent

-- The opening lot of a position that has no lots yet.
unfoldable pub open_averaged : LotStore → Text → Text → Result LotStore
open_averaged lots quantity total_cost = do
  order ← compare_decimals quantity zero_text
  let averaged = do
    unit_cost ← divide_decimals total_cost quantity division_max_fraction_digits
    ok (push lots (record { quantity = quantity; unit_cost = unit_cost }))
  if is_above order then averaged else ok lots

unfoldable pub open_lots : LotStore → Option (List Lot) → Text → Text → Result LotStore
open_lots lots none quantity total_cost = open_averaged lots quantity total_cost
open_lots lots (some []) quantity total_cost = open_averaged lots quantity total_cost
open_lots lots (some (lot ∷ rest)) quantity total_cost = ok (push_all lots (lot ∷ rest))

-- The `switch`, for a checked amount.
unfoldable pub apply_lots : TransactionType → CalculationTransaction → Text → Queue → Result Queue
apply_lots buy transaction amount queue = do
  price ← require_price transaction.price
  quantity ← sum_decimals (queue.quantity ∷ amount ∷ [])
  cost ← multiply_decimals amount price
  total_cost ← sum_decimals (queue.total_cost ∷ cost ∷ [])
  ok (record queue {
    lots = push queue.lots (record { quantity = amount; unit_cost = price });
    quantity = quantity;
    total_cost = total_cost;
  })
apply_lots sell transaction amount queue = do
  price ← require_price transaction.price
  assert_available queue.quantity amount
  (lots, released) ← consume queue.lots amount
  proceeds ← multiply_decimals amount price
  quantity ← subtract_decimals queue.quantity amount
  total_cost ← subtract_decimals queue.total_cost released
  gain ← subtract_decimals proceeds released
  ok (record {
    lots = lots;
    quantity = quantity;
    total_cost = total_cost;
    realized_pnl =
        queue.realized_pnl
        ++ (record {
          transaction_id = transaction.id;
          occurred_at = transaction.occurred_at;
          amount = amount;
          price = price;
          proceeds = proceeds;
          released_cost_basis = released;
          realized_pnl = gain;
          fee = transaction.fee;
        })
          ∷ [];
  })
apply_lots transfer_in transaction amount queue = do
  assert_optional_price transaction.price
  quantity ← sum_decimals (queue.quantity ∷ amount ∷ [])
  ok (record queue {
    lots = push queue.lots (record { quantity = amount; unit_cost = zero_text });
    quantity = quantity;
  })
apply_lots transfer_out transaction amount queue = do
  assert_optional_price transaction.price
  assert_available queue.quantity amount
  (lots, released) ← consume queue.lots amount
  quantity ← subtract_decimals queue.quantity amount
  total_cost ← subtract_decimals queue.total_cost released
  ok (record queue { lots = lots; quantity = quantity; total_cost = total_cost })
apply_lots (unsupported type) transaction amount queue = ok queue

-- One round of the loop.
unfoldable pub lots_step : CalculationTransaction → Queue → Result Queue
lots_step transaction queue = do
  assert_supported_type transaction.type
  amount ← assert_positive_amount transaction.amount
  assert_fee transaction.fee
  apply_lots transaction.type transaction amount queue

abbrev pub lots_loop : List CalculationTransaction → Queue → Result Queue
lots_loop [] queue = ok queue
lots_loop (transaction ∷ transactions) queue = do
  next ← lots_step transaction queue
  lots_loop transactions next

-- `LotCostBasisCalculator.calculate`
unfoldable pub calculate_lots :
    Bool → List CalculationTransaction → CostBasisOpeningState → Result CostBasisResult
calculate_lots from_back transactions opening = do
  quantity ← assert_opening_quantity opening.quantity
  total_cost ← assert_opening_cost opening.total_cost
  lots ← open_lots (empty_store from_back) opening.lots quantity total_cost
  queue ←
      lots_loop transactions
        (record { lots = lots; quantity = quantity; total_cost = total_cost; realized_pnl = [] })
  ok (record {
    quantity = queue.quantity;
    total_cost = queue.total_cost;
    realized_pnl = queue.realized_pnl;
    lots = some (to_lots queue.lots);
  })

-- `FifoCostBasisCalculator` and `LifoCostBasisCalculator`
unfoldable pub calculate_fifo :
    List CalculationTransaction → CostBasisOpeningState → Result CostBasisResult
calculate_fifo = calculate_lots false

unfoldable pub calculate_lifo :
    List CalculationTransaction → CostBasisOpeningState → Result CostBasisResult
calculate_lifo = calculate_lots true
