-- ===== src/Decimal/Witnesses.antt =====
-- The theorems about decimal texts at concrete inputs.
use nest_backend.Decimal.Canonical.{zero_test}
use nest_backend.Common.Text.{text_eq, to_string, emit}
use nest_backend.Common.{
  ◌==◌, ℕ, ◌^◌, ◌≡◌, refl, ◌⊎◌, [], ◌∷◌, ok, err, decimal, Ordering, arith, true, false, ◌*◌,
  invalid_decimal_string,
}
use nest_backend.Common.Int.{pos, negsuc, ◌-ℤ◌}
use nest_backend.Common.Text.{Text, codes}
use nest_backend.Decimal.{
  Sign, print_nonzero, zero_text, plus, minus, parse_decimal, decimal_format, is_decimal_string,
  format_decimal, multiply_decimals, sum_decimals, subtract_decimals, compare_decimals,
  divide_decimals,
}
use nest_backend.Decimal.Value.{Denotes, format-Denotes}
use nest_backend.Decimal.Arithmetic.{Returns, multiply-Returns, sum-Returns}
use nest_backend.Decimal.Order.{subtract-Returns, compare-Denotes}
use nest_backend.Decimal.Division.{
  ReturnsQuotient, divide-ReturnsQuotient, ReturnsExact, divide-ReturnsExact,
}
use nest_backend.Decimal.Laws.{compare_negative_zero}
use nest_backend.Decimal.Grammar.{Spells, value_of, parse-Spells}

one_and_half : Denotes (codes "1.50") (pos 15) 1
unfolding parse_decimal decimal_format
one_and_half = record {
  parsed = record { sign = plus; coefficient = 150; scale = 2 };
  parses = refl;
  holds = record { signed_as = refl; value = refl };
}

minus_two : Denotes (codes "-2") (negsuc 19) 1
unfolding parse_decimal decimal_format
minus_two = record {
  parsed = record { sign = minus; coefficient = 2; scale = 0 };
  parses = refl;
  holds = record { signed_as = refl; value = refl };
}

eight : Denotes (codes "8") (pos 80) 1
unfolding parse_decimal decimal_format
eight = record {
  parsed = record { sign = plus; coefficient = 8; scale = 0 };
  parses = refl;
  holds = record { signed_as = refl; value = refl };
}

format-Denotes_example : Denotes (format_decimal 1500 3 minus) (negsuc 1499) 3
format-Denotes_example = format-Denotes (negsuc 1499) 3

multiply-Returns_example : Returns (multiply_decimals (codes "1.50") (codes "8")) (pos 1200) 2
multiply-Returns_example = multiply-Returns 15 80 1 1 one_and_half eight

sum-Returns_example : Returns (sum_decimals (codes "1.50" ∷ codes "8" ∷ [])) (pos 95) 1
sum-Returns_example =
    sum-Returns 1 (codes "1.50", 15) ((codes "8", 80) ∷ []) (one_and_half, (eight, tt))

subtract-Returns_example : Returns (subtract_decimals (codes "-2") (codes "1.50")) (negsuc 34) 1
unfolding ◌-ℤ◌
subtract-Returns_example = subtract-Returns (negsuc 19) (pos 15) 1 minus_two one_and_half

compare-Denotes_example : compare_decimals (codes "-2") (codes "1.50") ≡ ok Ordering.lt
compare-Denotes_example = compare-Denotes (negsuc 19) (pos 15) 1 minus_two one_and_half

divide-ReturnsQuotient_example :
    ReturnsQuotient (divide_decimals (codes "8") (codes "1.50") 4) (pos 80) (pos 15) 4
divide-ReturnsQuotient_example =
    divide-ReturnsQuotient (pos 80) (pos 15) 1 4 eight one_and_half (omega arith)

divide-ReturnsExact_example :
    ReturnsExact (divide_decimals (codes "1.50") (codes "8") 0) (pos 15) (pos 80)
divide-ReturnsExact_example =
    divide-ReturnsExact (pos 15) (pos 80) 1 0 one_and_half eight (omega arith)
      (4, (1875, omega arith))

parse-Spells_example :
    ((sign : Sign) × (integer : Text) × (fraction : Text) × Spells
        (codes "1.2.3")
        sign
        integer
        fraction
      × (parse_decimal (codes "1.2.3") ≡ ok (value_of sign integer fraction))
      × (is_decimal_string (codes "1.2.3") ≡ true))
    ⊎ ((parse_decimal (codes "1.2.3") ≡ err (decimal invalid_decimal_string))
        × (is_decimal_string (codes "1.2.3") ≡ false)
        × ((sign : Sign) (integer fraction : Text)
            → ¬ Spells (codes "1.2.3") sign integer fraction))
parse-Spells_example = parse-Spells (codes "1.2.3")

zero_parses : parse_decimal (codes "0.00") ≡ ok (record { sign = plus; coefficient = 0; scale = 2 })
unfolding parse_decimal decimal_format
zero_parses = refl

negative_zero_parses :
    parse_decimal (codes "-0") ≡ ok (record { sign = minus; coefficient = 0; scale = 0 })
unfolding parse_decimal decimal_format
negative_zero_parses = refl

compare_negative_zero_example :
    (compare_decimals (codes "-0") (codes "0.00") ≡ ok Ordering.lt)
    × (compare_decimals (codes "0.00") (codes "-0") ≡ ok Ordering.gt)
    × (◌≡◌ {A = ℕ} (0 * 10 ^ 2) (0 * 10 ^ 0))
compare_negative_zero_example =
    compare_negative_zero (codes "-0") (codes "0.00")
      (record { sign = minus; coefficient = 0; scale = 0 })
      (record { sign = plus; coefficient = 0; scale = 2 }) negative_zero_parses zero_parses refl
      refl refl refl

difference_run : subtract_decimals (codes "2") (codes "1.5") ≡ ok (codes "0.5")
unfolding subtract_decimals parse_decimal decimal_format format_decimal print_nonzero to_string emit
    ◌-ℤ◌
difference_run = refl

half : Denotes (codes "0.5") (pos 5) 1
unfolding parse_decimal decimal_format
half = record {
  parsed = record { sign = plus; coefficient = 5; scale = 1 };
  parses = refl;
  holds = record { signed_as = refl; value = refl };
}

zero_test_example : text_eq (codes "0.5") zero_text ≡ (5 == 0)
zero_test_example = zero_test (codes "2") (codes "1.5") (codes "0.5") 5 1 difference_run half
