-- ===== src/Portfolio/Witnesses.antt =====
-- The theorems about the strategies at concrete inputs.
use nest_backend.Common.{◌≡◌, refl, [], ◌∷◌, none, some, ok, arith, true, false}
use nest_backend.Common.Int.{pos}
use nest_backend.Common.Text.{codes, to_string, emit}
use nest_backend.Decimal.{
  plus, parse_decimal, decimal_format, format_decimal, print_nonzero, sum_decimals,
  multiply_decimals, compare_decimals, is_decimal_string,
}
use nest_backend.Decimal.Value.{Denotes}
use nest_backend.Decimal.Arithmetic.{Returns}
use nest_backend.Portfolio.Types.{buy, sell, CostBasisOpeningState, Lot, CostBasisResult}
use nest_backend.Portfolio.Holdings.{calculate_quantity}
use nest_backend.Portfolio.Holdings.Held.{calculate_quantity-Returns}
use nest_backend.Portfolio.Validation.{
  assert_supported_type, assert_positive_amount, assert_fee, require_price, assert_positive_price,
  assert_opening_quantity, assert_opening_cost,
}
use nest_backend.Portfolio.AverageCost.{
  calculate, pooled_step, apply_pooled, release_proportional_basis,
}
use nest_backend.Portfolio.AverageCost.Release.{Releases, release-Releases}
use nest_backend.Portfolio.AverageCost.Ledger.{ReturnsPosition, calculate-ReturnsPosition}
use nest_backend.Portfolio.AverageCost.Agreement.{calculate_agrees}
use nest_backend.Portfolio.LotStore.{consume, consume_lots}
use nest_backend.Portfolio.LotStore.Blocks.{AllBlocks}
use nest_backend.Portfolio.LotStore.Consume.{Consumed, consume-Consumed}
use nest_backend.Portfolio.LotStore.Lots.{
  LeavesLots, consume_lots-LeavesLots, Conserves, consume_lots-Conserves,
}
use nest_backend.Portfolio.LotCostBasis.{calculate_lots}
use nest_backend.Portfolio.LotCostBasis.Ledger.{ReturnsLots, calculate_lots-ReturnsLots, AllTrades}
use nest_backend.Portfolio.Samples.{
  two, one_and_half, three, price_three, price_four, cost_twelve, purchase, sale, opening_position,
  purchase_and_sale,
}

-- 2 at 3 and then 1.5 at 4.
abbrev old_lot : Lot
old_lot = record { quantity = codes "2"; unit_cost = codes "3" }

abbrev new_lot : Lot
new_lot = record { quantity = codes "1.5"; unit_cost = codes "4" }

two_blocks : AllBlocks 1 0 (old_lot ∷ new_lot ∷ []) ((20, 3) ∷ (15, 4) ∷ [])
two_blocks = ((two, price_three), ((one_and_half, price_four), tt))

consume-Consumed_example :
    Consumed 1 0 false
      (consume
        (record { from_back = false; lots = new_lot ∷ old_lot ∷ new_lot ∷ []; head = 1 })
        (codes "3"))
      ((5, 4) ∷ [])
      100
consume-Consumed_example =
    consume-Consumed 1 0
      (record { from_back = false; lots = new_lot ∷ old_lot ∷ new_lot ∷ []; head = 1 })
      (old_lot ∷ new_lot ∷ []) ((20, 3) ∷ (15, 4) ∷ []) (codes "3") 30 (refl, omega arith)
      two_blocks three (omega arith)

consume_lots-LeavesLots_example :
    LeavesLots 1 0 true (consume_lots (new_lot ∷ old_lot ∷ []) (codes "3") true) ((5, 4) ∷ []) 100
consume_lots-LeavesLots_example =
    consume_lots-LeavesLots 1 0 true (new_lot ∷ old_lot ∷ []) ((20, 3) ∷ (15, 4) ∷ []) (codes "3")
      30 two_blocks three (omega arith)

consume_lots-Conserves_example :
    Conserves 1 0 false
      (consume_lots (old_lot ∷ new_lot ∷ []) (codes "3") false)
      ((20, 3) ∷ (15, 4) ∷ [])
      30
consume_lots-Conserves_example =
    consume_lots-Conserves 1 0 false (old_lot ∷ new_lot ∷ []) ((20, 3) ∷ (15, 4) ∷ []) (codes "3")
      30 two_blocks three (omega arith) (omega arith)

calculate-ReturnsPosition_example :
    ReturnsPosition (calculate (purchase ∷ sale ∷ []) opening_position) 1 5
calculate-ReturnsPosition_example =
    calculate-ReturnsPosition 1 20 (purchase ∷ sale ∷ []) ((buy, 15) ∷ (sell, 30) ∷ [])
      opening_position purchase_and_sale two
      (record { numerator = 120; scale = 1; denotes = cost_twelve })

calculate_quantity-Returns_example :
    Returns (calculate_quantity (purchase ∷ sale ∷ []) (some (codes "2"))) (pos 5) 1
calculate_quantity-Returns_example =
    calculate_quantity-Returns 1 (purchase ∷ sale ∷ []) ((buy, 15) ∷ (sell, 30) ∷ [])
      (refl, one_and_half, (refl, three, tt)) two

release-Releases_example :
    Releases
      (release_proportional_basis (codes "12") (codes "3") (codes "2"))
      (record { numerator = 120; scale = 1; denotes = cost_twelve })
release-Releases_example =
    release-Releases (record { numerator = 120; scale = 1; denotes = cost_twelve }) three two
      (omega arith)

abbrev opening_lots : CostBasisOpeningState
opening_lots = record { quantity = codes "2"; total_cost = codes "6"; lots = some (old_lot ∷ []) }

cost_six : Denotes (codes "6") (pos 60) 1
unfolding parse_decimal decimal_format
cost_six = record {
  parsed = record { sign = plus; coefficient = 6; scale = 0 };
  parses = refl;
  holds = record { signed_as = refl; value = refl };
}

trades_of_lots :
    AllTrades 1 0 false
      (purchase ∷ sale ∷ [])
      ((buy, (15, 4)) ∷ (sell, (30, 4)) ∷ [])
      ((20, 3) ∷ [])
trades_of_lots = (
  refl,
  record {
    amount_denotes = one_and_half;
    amount_positive = omega arith;
    priced = (omega arith, price_four);
    fee_valid = tt;
  },
  tt,
  (
    refl,
    record {
      amount_denotes = three;
      amount_positive = omega arith;
      priced = (omega arith, price_four);
      fee_valid = (20, 1, two);
    },
    omega arith,
    tt,
  ),
)

calculate_lots-ReturnsLots_example :
    ReturnsLots (calculate_lots false (purchase ∷ sale ∷ []) opening_lots) 1 0 false ((5, 4) ∷ [])
calculate_lots-ReturnsLots_example =
    calculate_lots-ReturnsLots 1 0 false (purchase ∷ sale ∷ [])
      ((buy, (15, 4)) ∷ (sell, (30, 4)) ∷ []) opening_lots ((20, 3) ∷ []) trades_of_lots
      (record { blocks_hold = ((two, price_three), tt); quantity = two; cost = cost_six })

abbrev bought_position : CostBasisResult
bought_position = record {
  quantity = codes "3.5";
  total_cost = codes "18";
  realized_pnl = [];
  lots = none;
}

purchase_run : calculate (purchase ∷ []) opening_position ≡ ok bought_position
unfolding calculate pooled_step apply_pooled assert_opening_quantity assert_opening_cost
    assert_supported_type assert_positive_amount assert_fee require_price assert_positive_price
    sum_decimals multiply_decimals compare_decimals is_decimal_string parse_decimal decimal_format
    format_decimal print_nonzero to_string emit
purchase_run = refl

calculate_agrees_example : calculate_quantity (purchase ∷ []) (some (codes "2")) ≡ ok (codes "3.5")
calculate_agrees_example = calculate_agrees (purchase ∷ []) opening_position purchase_run
