-- ===== src/Portfolio/Engine/Results.antt =====
-- What the engine returns: the position of its strategy on the ordered ledger, and the average cost.
use mathlib.Core.List.Perm
use mathlib.Core.List.{Perm, mem-cons_self, mem-cons_of_mem}
use nest_backend.Common.{
  ℕ, zero, suc, ◌+◌, ◌*◌, ◌^◌, ◌≡◌, refl, sym, ap, ◌∙◌, List, [], ◌∷◌, Option, Bool, true, false,
  Result, ok, err, ◌>>=◌, ◌>>◌, arith, calculation, invalid_date, if◌then◌else◌, not, ◌&&◌,
}
use native.Mathlib.Nat.{mul-pos}
use nest_backend.Common.Powers.{pow_pos}
use nest_backend.Common.Int.{ℤ, pos, compare_ℤ}
use nest_backend.Common.Text.{Text}
use nest_backend.Decimal.{zero_text}
use nest_backend.Decimal.Value.{Denotes}
use nest_backend.Decimal.Laws.{zero_text-Denotes}
use nest_backend.Decimal.Order.{compare-Denotes}
use nest_backend.Decimal.Division.{divide-ReturnsQuotient}
use nest_backend.Decimal.Quotient.{IsQuotient}
use nest_backend.Decimal.Scales.{NonNegative, Denotes-widen, Denotes_widen_left}
use nest_backend.Portfolio.Types.{CalculationTransaction, CostBasisOpeningState, CostBasisResult}
use nest_backend.Portfolio.Holdings.{get_or}
use nest_backend.Portfolio.Holdings.Held.{Movement, held_after}
use nest_backend.Portfolio.AverageCost.{division_max_fraction_digits, is_equal}
use nest_backend.Portfolio.AverageCost.Ledger.{AllValid, calculate-ReturnsPosition}
use nest_backend.Portfolio.Engine.{
  CostBasisCalculator, PortfolioCalculationInput, PortfolioCalculationOptions,
  PortfolioCalculationResult, average, strategy_calculator, order_chronologically, check_dates,
  average_of, calculate_portfolio,
}
use nest_backend.Portfolio.Engine.Chronology.{
  AllDated, IsKeyed, IsChronological, order_chronological, order_chronologically-perm,
}

-- `'0'` for an empty position, and else the cost of a unit, cut off at the division's limit.
abbrev pub IsAverage : Text → ℕ → ℕ → ℕ → ℕ → Type 0
IsAverage text zero k c j = text ≡ zero_text
IsAverage text (suc q) k c j =
    (d : ℕ) × (s : ℕ) × Denotes text (pos d) s
    × IsQuotient (c * 10 ^ k) (suc q * 10 ^ j) division_max_fraction_digits d s

pub record AverageReturns (position : CostBasisResult) (q k c j : ℕ) : Type 0 where
  pub text : Text
  pub returns : average_of position ≡ ok text
  pub is_average : IsAverage text q k c j

average_of-AverageReturns :
    (position : CostBasisResult) (q k c j : ℕ)
    → Denotes position.quantity (pos q) k
    → Denotes position.total_cost (pos c) j
    → AverageReturns position q k c j
unfolding average_of
average_of-AverageReturns position zero k c j dq dc = record {
  text = zero_text;
  returns = rw (compare-Denotes (pos 0) (pos 0) k dq (zero_text-Denotes k)) refl;
  is_average = refl;
}
average_of-AverageReturns position (suc q) k c j dq dc =
    let divided =
      divide-ReturnsQuotient (pos (c * 10 ^ k)) (pos (suc q * 10 ^ j)) (j + k)
        division_max_fraction_digits (Denotes-widen k dc) (Denotes_widen_left j dq)
        (mul-pos (omega arith) (pow_pos j)) in
    let above : is_equal (compare_ℤ (pos (suc q)) (pos 0)) ≡ false = ground arith in
    record {
      text = divided.text;
      returns =
          rw (compare-Denotes (pos (suc q)) (pos 0) k dq (zero_text-Denotes k), above)
            divided.returns;
      is_average = (divided.coefficient, divided.scale, divided.denotes, divided.rounded);
    }

module _ (date_parse : Text → Option ℤ) where
  check_dates_lem :
      (trusted : Bool) (transactions : List CalculationTransaction)
      → AllDated date_parse transactions
      → check_dates date_parse trusted transactions ≡ ok tt
  check_dates_lem trusted [] h = refl
  check_dates_lem trusted (t ∷ ts) h =
      let (time, e) = h t mem-cons_self in
      let rest = check_dates_lem trusted ts (λ u m. h u (mem-cons_of_mem t m)) in
      rw e (passed trusted rest)
    where
      passed :
          (b : Bool) {call : Result (Unit {0})}
          → call ≡ ok tt
          → ((elim (not b && false) as (λ x. Result (Unit {0})) [
            | true ↦ err (calculation invalid_date)
            | false ↦ ok tt
          ])
              >> call)
            ≡ ok tt
      passed true e = e
      passed false e = e

  opening_of : PortfolioCalculationInput → CostBasisOpeningState
  opening_of input = record {
    quantity = get_or input.opening_quantity zero_text;
    total_cost = get_or input.opening_cost zero_text;
    lots = input.opening_lots;
  }

  -- The part of the calculation that follows the order.
  after_order :
      CostBasisCalculator
      → PortfolioCalculationInput
      → List CalculationTransaction
      → Result PortfolioCalculationResult
  after_order cost_basis input transactions = do
    position ← cost_basis transactions (opening_of input)
    average_cost ← average_of position
    ok (record {
      quantity = position.quantity;
      total_cost = position.total_cost;
      average_cost = average_cost;
      realized_pnl = position.realized_pnl;
      lots = position.lots;
    })

  calculate_portfolio_lem :
      (cost_basis : CostBasisCalculator) (input : PortfolioCalculationInput)
      (options : PortfolioCalculationOptions)
      → AllDated date_parse input.transactions
      → calculate_portfolio date_parse cost_basis input options
        ≡ after_order cost_basis input (
            if options.already_ordered
            then input.transactions
            else order_chronologically date_parse input.transactions)
  unfolding calculate_portfolio after_order opening_of
  calculate_portfolio_lem cost_basis input options h =
      rw (check_dates_lem options.trusted_iso_dates input.transactions h) refl

  -- For two ledgers with the same transactions, all dated, in which the instant and the identifier
  -- of a transaction tell it from all others, the engine that orders its input returns the same,
  -- for every strategy.
  pub calculate_portfolio_perm :
      (cost_basis : CostBasisCalculator) (input : PortfolioCalculationInput)
      (r : List CalculationTransaction) (trusted : Bool)
      → AllDated date_parse input.transactions
      → IsKeyed date_parse input.transactions
      → Perm input.transactions r
      → calculate_portfolio date_parse cost_basis input
          (record { already_ordered = false; trusted_iso_dates = trusted })
        ≡ calculate_portfolio date_parse cost_basis
            (record input { transactions = r })
            (record { already_ordered = false; trusted_iso_dates = trusted })
  unfolding after_order opening_of
  calculate_portfolio_perm cost_basis input r trusted dated apart p =
      let options : PortfolioCalculationOptions = record {
        already_ordered = false;
        trusted_iso_dates = trusted;
      } in
      calculate_portfolio_lem cost_basis input options dated
      ∙ ap (after_order cost_basis input)
          (order_chronologically-perm date_parse input.transactions r dated apart p)
      ∙ sym (
          calculate_portfolio_lem cost_basis (record input { transactions = r }) options
            (λ t m. dated t ((Perm.mem_iff p).1 m)))

  ordered_either :
      (b : Bool) (l : List CalculationTransaction)
      → order_chronologically date_parse l ≡ l
      → (if b then l else order_chronologically date_parse l) ≡ l
  ordered_either true l e = refl
  ordered_either false l e = e

  -- On a ledger of dated transactions in chronological order (of any two, the one behind is not of
  -- an earlier instant, and at the same instant its identifier is not the lesser one), the engine
  -- returns the same with all options, for every strategy.
  pub calculate_portfolio_ordered :
      (cost_basis : CostBasisCalculator) (input : PortfolioCalculationInput)
      (options options' : PortfolioCalculationOptions)
      → AllDated date_parse input.transactions
      → IsChronological date_parse input.transactions
      → calculate_portfolio date_parse cost_basis input options
        ≡ calculate_portfolio date_parse cost_basis input options'
  calculate_portfolio_ordered cost_basis input options options' dated ordered =
      let same = order_chronological date_parse input.transactions dated ordered in
      calculate_portfolio_lem cost_basis input options dated
      ∙ ap (after_order cost_basis input) (
          ordered_either options.already_ordered input.transactions same
          ∙ sym (ordered_either options'.already_ordered input.transactions same))
      ∙ sym (calculate_portfolio_lem cost_basis input options' dated)

  -- The position of the average-cost strategy, with the average.
  pub record ReturnsAverage (r : Result PortfolioCalculationResult) (k held : ℕ) : Type 0 where
    pub result : PortfolioCalculationResult
    pub returns : r ≡ ok result
    pub quantity : Denotes result.quantity (pos held) k
    pub total_cost : NonNegative result.total_cost
    pub is_average : IsAverage result.average_cost held k total_cost.numerator total_cost.scale

  -- On a ledger of dated transactions that, in chronological order, has supported types with
  -- positive amounts and prices and valid fees, and an opening position that is not negative, the
  -- engine with the average-cost strategy returns, also when more is disposed of than held; the
  -- quantity is the sum of the movements with each disposal stopped at zero, the total cost is not
  -- negative, and the average cost is zero for an empty position and otherwise their quotient,
  -- exactly or rounded towards zero at the digit limit.
  pub calculate_portfolio-ReturnsAverage :
      (k held : ℕ) (input : PortfolioCalculationInput) (moves : List Movement) (trusted : Bool)
      → AllDated date_parse input.transactions
      → AllValid k (order_chronologically date_parse input.transactions) moves
      → Denotes (get_or input.opening_quantity zero_text) (pos held) k
      → NonNegative (get_or input.opening_cost zero_text)
      → ReturnsAverage
          (calculate_portfolio date_parse
            (strategy_calculator average)
            input
            (record { already_ordered = false; trusted_iso_dates = trusted }))
          k
          (held_after moves held)
  unfolding after_order opening_of
  calculate_portfolio-ReturnsAverage k held input moves trusted dated valid quantity cost =
      let options : PortfolioCalculationOptions = record {
        already_ordered = false;
        trusted_iso_dates = trusted;
      } in
      let ordered = order_chronologically date_parse input.transactions in
      let p =
        calculate-ReturnsPosition k held ordered moves (opening_of input) valid quantity cost in
      let a =
        average_of-AverageReturns p.position (held_after moves held) k p.total_cost.numerator
          p.total_cost.scale p.quantity p.total_cost.denotes in
      record {
        result = record {
          quantity = p.position.quantity;
          total_cost = p.position.total_cost;
          average_cost = a.text;
          realized_pnl = p.position.realized_pnl;
          lots = p.position.lots;
        };
        returns =
            calculate_portfolio_lem (strategy_calculator average) input options dated
            ∙ rw (p.returns, a.returns) refl;
        quantity = p.quantity;
        total_cost = p.total_cost;
        is_average = a.is_average;
      }
