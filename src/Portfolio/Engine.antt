-- ===== src/Portfolio/Engine.antt =====
-- src/features/portfolio/domain/calculation/portfolio-calculation.engine.ts. `Date.parse` is the
-- parameter `date_parse`, which gives milliseconds, or `none` for a text that is no date (NaN).
pub mod Chronology
pub mod Results
mod Witnesses
use nest_backend.Common.{
  ℕ, List, [], ◌∷◌, map, Option, none, some, Bool, true, false, not, ◌&&◌, Ordering, Result, ok,
  err, ◌>>=◌, ◌>>◌, if◌then◌else◌, throw_if, calculation, invalid_date,
}
use nest_backend.Common.Int.{ℤ, compare_ℤ}
use nest_backend.Common.Sort.{sort}
use nest_backend.Common.Text.{Text, text_eq, text_ltb}
use nest_backend.Decimal.{compare_decimals, divide_decimals, zero_text}
use nest_backend.Portfolio.Types.{
  CalculationTransaction, Lot, CostBasisOpeningState, CostBasisResult, RealizedPnlEvent,
}
use nest_backend.Portfolio.Validation.{is_below}
use nest_backend.Portfolio.Holdings.{get_or}
use nest_backend.Portfolio.AverageCost.{division_max_fraction_digits, is_equal}
use nest_backend.Portfolio.AverageCost
use nest_backend.Portfolio.LotCostBasis.{calculate_fifo, calculate_lifo}

pub data CostBasisStrategy : Type 0 where
  average fifo lifo : CostBasisStrategy

-- A `CostBasisCalculator`, by its one method.
abbrev pub CostBasisCalculator : Type 0
CostBasisCalculator = List CalculationTransaction → CostBasisOpeningState → Result CostBasisResult

-- `COST_BASIS_STRATEGY_CALCULATORS`
abbrev pub strategy_calculator : CostBasisStrategy → CostBasisCalculator
strategy_calculator average = AverageCost.calculate
strategy_calculator fifo = calculate_fifo
strategy_calculator lifo = calculate_lifo

-- The engine reads the lots of a checkpoint from its input as well.
pub record PortfolioCalculationInput : Type 0 where
  pub opening_quantity : Option Text
  pub opening_cost : Option Text
  pub opening_lots : Option (List Lot)
  pub transactions : List CalculationTransaction

pub record PortfolioCalculationOptions : Type 0 where
  pub already_ordered : Bool
  pub trusted_iso_dates : Bool

pub record PortfolioCalculationResult : Type 0 where
  pub quantity : Text
  pub total_cost : Text
  pub average_cost : Text
  pub realized_pnl : List RealizedPnlEvent
  pub lots : Option (List Lot)

-- What `orderChronologically` sorts.
pub record Keyed : Type 0 where
  pub transaction : CalculationTransaction
  pub time : Option ℤ
  pub id : Text

-- `a !== b` and `a < b` for two times: NaN differs from every number, and is not less than any.
abbrev pub time_differs : Option ℤ → Option ℤ → Bool
time_differs none b = true
time_differs (some a) none = true
time_differs (some a) (some b) = not (is_equal (compare_ℤ a b))

abbrev pub time_less : Option ℤ → Option ℤ → Bool
time_less none b = false
time_less (some a) none = false
time_less (some a) (some b) = is_below (compare_ℤ a b)

-- The comparator.
abbrev pub compare_keyed : Keyed → Keyed → Ordering
compare_keyed a b =
    if time_differs a.time b.time
    then (if time_less a.time b.time then Ordering.lt else Ordering.gt)
    else if not (text_eq a.id b.id)
    then (if text_ltb a.id b.id then Ordering.lt else Ordering.gt)
    else Ordering.eq

abbrev pub before : Keyed → Keyed → Bool
before a b = is_below (compare_keyed a b)

abbrev pub is_invalid_date : Option ℤ → Bool
is_invalid_date none = true
is_invalid_date (some time) = false

abbrev pub transaction_of : Keyed → CalculationTransaction
transaction_of entry = entry.transaction

unfoldable pub average_of : CostBasisResult → Result Text
average_of position = do
  order ← compare_decimals position.quantity zero_text
  if is_equal order
      then ok zero_text
      else divide_decimals position.total_cost position.quantity division_max_fraction_digits

module _ (date_parse : Text → Option ℤ) where
  abbrev pub keyed : CalculationTransaction → Keyed
  keyed transaction = record {
    transaction = transaction;
    time = date_parse transaction.occurred_at;
    id = get_or transaction.id [];
  }

  unfoldable pub order_chronologically : List CalculationTransaction → List CalculationTransaction
  order_chronologically transactions = map transaction_of (sort before (map keyed transactions))

  -- The loop that checks each transaction.
  abbrev pub check_dates : Bool → List CalculationTransaction → Result (Unit {0})
  check_dates trusted [] = ok tt
  check_dates trusted (transaction ∷ transactions) = do
    throw_if (not trusted && is_invalid_date (date_parse transaction.occurred_at))
        (calculation invalid_date)
    check_dates trusted transactions

  -- `PortfolioCalculationEngine.calculate`
  unfoldable pub calculate_portfolio :
      CostBasisCalculator
      → PortfolioCalculationInput
      → PortfolioCalculationOptions
      → Result PortfolioCalculationResult
  calculate_portfolio cost_basis input options = do
    check_dates options.trusted_iso_dates input.transactions
    let transactions =
        if options.already_ordered
        then input.transactions
        else order_chronologically input.transactions
    let opening : CostBasisOpeningState = record {
      quantity = get_or input.opening_quantity zero_text;
      total_cost = get_or input.opening_cost zero_text;
      lots = input.opening_lots;
    }
    position ← cost_basis transactions opening
    average_cost ← average_of position
    ok (record {
      quantity = position.quantity;
      total_cost = position.total_cost;
      average_cost = average_cost;
      realized_pnl = position.realized_pnl;
      lots = position.lots;
    })
