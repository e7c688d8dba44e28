-- ===== src/Portfolio/Tests.antt =====
-- Runs of the portfolio calculations.
use nest_backend.Common.{
  none, ◌≡◌, refl, [], ◌∷◌, ok, err, true, false, calculation, insufficient_quantity,
}
use nest_backend.Common.Int.{◌-ℤ◌}
use nest_backend.Common.Text.{codes, to_string, emit}
use nest_backend.Decimal.{
  sum_decimals, multiply_decimals, subtract_decimals, divide_decimals, quotient, gcd, gcd_loop,
  divide_out, expand, compare_decimals, parse_decimal, decimal_format, format_decimal,
  print_nonzero, is_decimal_string,
}
use nest_backend.Portfolio.Types.{Lot}
use nest_backend.Portfolio.Validation.{
  assert_available, assert_opening_quantity, assert_opening_cost, assert_supported_type,
  assert_positive_amount, assert_fee, require_price, assert_positive_price,
}
use nest_backend.Portfolio.Holdings.{clamp_disposal}
use nest_backend.Portfolio.Samples.{sale, opening_position}
use nest_backend.Portfolio.AverageCost.{
  release_proportional_basis, calculate, pooled_step, apply_pooled,
}
use nest_backend.Portfolio.LotStore.{
  push, has_lots, current_lot, write_lot, discard_lot, consume_lot, consume_loop, compact, finish,
  consume, to_lots, consume_lots,
}

abbrev cheap_lot : Lot
cheap_lot = record { quantity = codes "2"; unit_cost = codes "3" }

abbrev dear_lot : Lot
dear_lot = record { quantity = codes "1.5"; unit_cost = codes "4" }

fifo_run :
    consume_lots (cheap_lot ∷ dear_lot ∷ []) (codes "3") false
    ≡ ok (record {
      remaining_lots = (record { quantity = codes "0.5"; unit_cost = codes "4" }) ∷ [];
      released_basis = codes "10";
    })
unfolding consume_lots consume consume_loop consume_lot finish compact to_lots push has_lots
    current_lot write_lot discard_lot sum_decimals multiply_decimals subtract_decimals
    compare_decimals parse_decimal decimal_format format_decimal print_nonzero to_string emit ◌-ℤ◌
fifo_run = refl

lifo_run :
    consume_lots (cheap_lot ∷ dear_lot ∷ []) (codes "3") true
    ≡ ok (record {
      remaining_lots = (record { quantity = codes "0.5"; unit_cost = codes "3" }) ∷ [];
      released_basis = codes "10.5";
    })
unfolding consume_lots consume consume_loop consume_lot finish compact to_lots push has_lots
    current_lot write_lot discard_lot sum_decimals multiply_decimals subtract_decimals
    compare_decimals parse_decimal decimal_format format_decimal print_nonzero to_string emit ◌-ℤ◌
lifo_run = refl

oversold_run : assert_available (codes "2") (codes "2.01") ≡ err (calculation insufficient_quantity)
unfolding assert_available compare_decimals parse_decimal decimal_format
oversold_run = refl

share_run : release_proportional_basis (codes "12") (codes "3") (codes "2") ≡ ok (codes "8")
unfolding release_proportional_basis compare_decimals divide_decimals multiply_decimals
    parse_decimal decimal_format format_decimal print_nonzero to_string emit quotient expand gcd
    gcd_loop divide_out
share_run = refl

-- A sale of 3 out of 2 sells the 2.
oversold_average_run :
    calculate (sale ∷ []) opening_position
    ≡ ok (record {
      quantity = codes "0";
      total_cost = codes "0";
      realized_pnl =
          (record {
            transaction_id = sale.id;
            occurred_at = sale.occurred_at;
            amount = codes "2";
            price = codes "4";
            proceeds = codes "8";
            released_cost_basis = codes "12";
            realized_pnl = codes "-4";
            fee = sale.fee;
          })
          ∷ [];
      lots = none;
    })
unfolding calculate pooled_step apply_pooled release_proportional_basis assert_opening_quantity
    assert_opening_cost assert_supported_type assert_positive_amount assert_fee require_price
    assert_positive_price clamp_disposal is_decimal_string sum_decimals multiply_decimals
    subtract_decimals divide_decimals quotient expand gcd gcd_loop divide_out compare_decimals
    parse_decimal decimal_format format_decimal print_nonzero to_string emit ◌-ℤ◌
oversold_average_run = refl
