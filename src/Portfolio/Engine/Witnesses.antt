-- ===== src/Portfolio/Engine/Witnesses.antt =====
-- The theorems about the engine at concrete inputs.
use mathlib.Core.List.{Perm, Mem, mem-cons, not-mem-nil}
use mathlib.Core.List.Perm
use mathlib.Core.Logic.Or
use native.Mathlib.Decide.{ℕ_discrete}
use nest_backend.Common.{
  ℕ, ◌≡◌, refl, List, [], ◌∷◌, Option, none, some, arith, true, false, get_elem?,
}
use nest_backend.Common.Int.{ℤ, pos}
use nest_backend.Common.Text.{Text, codes}
use nest_backend.Portfolio.Types.{buy, sell, CalculationTransaction}
use nest_backend.Portfolio.AverageCost.Ledger.{AllValid}
use nest_backend.Portfolio.Holdings.{get_or}
use nest_backend.Portfolio.Engine.{
  PortfolioCalculationInput, PortfolioCalculationOptions, average, fifo, strategy_calculator,
  order_chronologically, calculate_portfolio,
}
use nest_backend.Portfolio.Engine.Chronology.{
  IsChronological, AllDated, IsKeyed, order_chronologically-IsChronological,
}
use nest_backend.Portfolio.Engine.Results.{
  calculate_portfolio_perm, calculate_portfolio_ordered, ReturnsAverage,
  calculate_portfolio-ReturnsAverage,
}
use nest_backend.Portfolio.Samples.{two, cost_twelve, purchase, sale, purchase_and_sale}

-- The last digit of the day of a date.
abbrev day_of : Option ℕ → Option ℤ
day_of none = some (pos 0)
day_of (some digit) = some (pos digit)

abbrev day : Text → Option ℤ
day date = day_of (get_elem? date 9)

all_dated : (transactions : List CalculationTransaction) → AllDated day transactions
all_dated transactions t m = dated (get_elem? t.occurred_at 9)
  where
    dated : (digit : Option ℕ) → (time : ℤ) × (day_of digit ≡ some time)
    dated none = (pos 0, refl)
    dated (some digit) = (pos digit, refl)

transaction_set : IsSet CalculationTransaction
transaction_set = hlevel ℕ_discrete

one_of_two :
    (t a b : CalculationTransaction) (P : CalculationTransaction → Type 0)
    → ((x : CalculationTransaction) → IsProp (P x))
    → P a
    → P b
    → Mem t (a ∷ b ∷ [])
    → P t
one_of_two t a b P prop ha hb m =
    Or.elim (prop t) (mem-cons.0 m) (λ e. rw e ha)
      (λ n. Or.elim (prop t) (mem-cons.0 n) (λ e. rw e hb) (λ l. absurd (not-mem-nil l)))

sale_and_purchase-IsKeyed : IsKeyed day (sale ∷ purchase ∷ [])
sale_and_purchase-IsKeyed t u mt mu =
    one_of_two t sale purchase
      (λ x. day x.occurred_at ≡ day u.occurred_at → get_or x.id [] ≡ get_or u.id [] → x ≡ u)
      (λ x. hlevel transaction_set)
      (one_of_two u sale purchase
        (λ y.
          day sale.occurred_at ≡ day y.occurred_at → get_or sale.id [] ≡ get_or y.id [] → sale ≡ y)
        (λ y. hlevel transaction_set) (λ d i. refl) (λ d i. absurd (ground arith)) mu)
      (one_of_two u sale purchase
        (λ y.
          day purchase.occurred_at ≡ day y.occurred_at
          → get_or purchase.id [] ≡ get_or y.id []
          → purchase ≡ y)
        (λ y. hlevel transaction_set) (λ d i. absurd (ground arith)) (λ d i. refl) mu)
      mt

abbrev unordered_input : PortfolioCalculationInput
unordered_input = record {
  opening_quantity = some (codes "2");
  opening_cost = some (codes "12");
  opening_lots = none;
  transactions = sale ∷ purchase ∷ [];
}

abbrev sorting : PortfolioCalculationOptions
sorting = record { already_ordered = false; trusted_iso_dates = true }

order_chronologically-IsChronological_example :
    Perm (order_chronologically day (sale ∷ purchase ∷ [])) (sale ∷ purchase ∷ [])
    × IsChronological day (order_chronologically day (sale ∷ purchase ∷ []))
order_chronologically-IsChronological_example =
    order_chronologically-IsChronological day (sale ∷ purchase ∷ [])
      (all_dated (sale ∷ purchase ∷ []))

calculate_portfolio_perm_example :
    calculate_portfolio day (strategy_calculator fifo) unordered_input sorting
    ≡ calculate_portfolio day
        (strategy_calculator fifo)
        (record unordered_input { transactions = purchase ∷ sale ∷ [] })
        sorting
calculate_portfolio_perm_example =
    calculate_portfolio_perm day (strategy_calculator fifo) unordered_input (purchase ∷ sale ∷ [])
      true (all_dated (sale ∷ purchase ∷ [])) sale_and_purchase-IsKeyed (Perm.swap purchase sale [])

abbrev ordered_input : PortfolioCalculationInput
ordered_input = record unordered_input { transactions = purchase ∷ sale ∷ [] }

purchase_and_sale-IsChronological : IsChronological day (purchase ∷ sale ∷ [])
purchase_and_sale-IsChronological =
    ((λ x y e f. (ground arith, λ same. absurd (ground arith)), tt), (tt, tt))

calculate_portfolio_ordered_example :
    calculate_portfolio day (strategy_calculator fifo) ordered_input sorting
    ≡ calculate_portfolio day
        (strategy_calculator fifo)
        ordered_input
        (record { already_ordered = true; trusted_iso_dates = false })
calculate_portfolio_ordered_example =
    calculate_portfolio_ordered day (strategy_calculator fifo) ordered_input sorting
      (record { already_ordered = true; trusted_iso_dates = false })
      (all_dated (purchase ∷ sale ∷ [])) purchase_and_sale-IsChronological

sorted_ledger : order_chronologically day (sale ∷ purchase ∷ []) ≡ purchase ∷ sale ∷ []
unfolding order_chronologically
sorted_ledger = refl

unordered-AllValid :
    AllValid 1 (order_chronologically day (sale ∷ purchase ∷ [])) ((buy, 15) ∷ (sell, 30) ∷ [])
unordered-AllValid = rw sorted_ledger purchase_and_sale

calculate_portfolio-ReturnsAverage_example :
    ReturnsAverage day
      (calculate_portfolio day (strategy_calculator average) unordered_input sorting)
      1
      5
calculate_portfolio-ReturnsAverage_example =
    calculate_portfolio-ReturnsAverage day 1 20 unordered_input ((buy, 15) ∷ (sell, 30) ∷ []) true
      (all_dated (sale ∷ purchase ∷ [])) unordered-AllValid two
      (record { numerator = 120; scale = 1; denotes = cost_twelve })
