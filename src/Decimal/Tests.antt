-- ===== src/Decimal/Tests.antt =====
-- Runs of the decimal utility.
use nest_backend.Common.{◌≡◌, refl, [], ◌∷◌, ok}
use nest_backend.Common.Int.{◌-ℤ◌}
use nest_backend.Common.Text.{codes, to_string, emit}
use nest_backend.Decimal.{
  parse_decimal, decimal_format, format_decimal, print_nonzero, quotient, expand, gcd, gcd_loop,
  divide_out, multiply_decimals, sum_decimals, subtract_decimals, divide_decimals,
}

product_run : multiply_decimals (codes "1.50") (codes "0.2") ≡ ok (codes "0.3")
unfolding multiply_decimals parse_decimal decimal_format format_decimal print_nonzero to_string emit
product_run = refl

sum_run : sum_decimals (codes "0.1" ∷ codes "0.2" ∷ []) ≡ ok (codes "0.3")
unfolding sum_decimals parse_decimal decimal_format format_decimal print_nonzero to_string emit
sum_run = refl

difference_run : subtract_decimals (codes "1") (codes "2.50") ≡ ok (codes "-1.5")
unfolding subtract_decimals parse_decimal decimal_format format_decimal print_nonzero to_string emit
    ◌-ℤ◌
difference_run = refl

third_run : divide_decimals (codes "1") (codes "3") 4 ≡ ok (codes "0.3333")
unfolding divide_decimals parse_decimal decimal_format format_decimal print_nonzero to_string emit
    quotient expand gcd gcd_loop divide_out
third_run = refl

exact_run : divide_decimals (codes "0.02") (codes "0.2") 0 ≡ ok (codes "0.1")
unfolding divide_decimals parse_decimal decimal_format format_decimal print_nonzero to_string emit
    quotient expand gcd gcd_loop divide_out
exact_run = refl

large_run : divide_decimals (codes "120000") (codes "-16") 26 ≡ ok (codes "-7500")
unfolding divide_decimals parse_decimal decimal_format format_decimal print_nonzero to_string emit
    quotient expand gcd gcd_loop divide_out
large_run = refl
