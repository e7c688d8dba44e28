-- ===== src/Decimal/Laws.antt =====
-- Division of texts with a finite quotient, the error paths, and the order of signed zeros.
use nest_backend.Common.{
  ◌*◌, ◌^◌, ◌≡◌, ◌⊎◌, inl, inr, refl, true, false, arith, if◌then◌else◌, ◌++◌, length, ℕ, Ordering,
  ok, err, decimal, invalid_decimal_string, negative_operand, zero_divisor, Bool-cases,
}
use nest_backend.Common.Int.{ℤ, pos}
use nest_backend.Decimal.{zero_text}
use nest_backend.Decimal.Value.{Denotes}
use nest_backend.Common.Text.{Text, big_int, split, starts_with}
use nest_backend.Decimal.{
  plus, minus, ParsedDecimal, parse_decimal, decimal_format, is_decimal_string, without_sign,
  first_part, second_part, compare_decimals, multiply_decimals, divide_decimals,
}

-- parseDecimal returns exactly when isDecimalString accepts the text, and otherwise throws the
-- error for an invalid decimal string.
pub parse_total :
    (t : Text)
    → ((d : ParsedDecimal) × (parse_decimal t ≡ ok d) × (is_decimal_string t ≡ true))
      ⊎ ((parse_decimal t ≡ err (decimal invalid_decimal_string)) × (is_decimal_string t ≡ false))
unfolding parse_decimal is_decimal_string
parse_total t = elim (Bool-cases (decimal_format t)) [
  | inl good ↦ rw good (
      inl (
        record {
          sign = if starts_with b'-' t then minus else plus;
          coefficient = big_int (
              first_part (split b'.' (without_sign t))
              ++ second_part (split b'.' (without_sign t)));
          scale = length (second_part (split b'.' (without_sign t)));
        },
        refl,
        refl,
      ))
  | inr bad ↦ rw bad (inr (refl, refl))
]

-- A negative operand of a product is refused.
pub multiply_negative :
    (t u : Text) (a b : ParsedDecimal)
    → parse_decimal t ≡ ok a
    → parse_decimal u ≡ ok b
    → (a.sign ≡ minus) ⊎ (b.sign ≡ minus)
    → multiply_decimals t u ≡ err (decimal negative_operand)
unfolding multiply_decimals
multiply_negative t u a b ha hb h = rw (ha, hb) (ground arith)

-- A zero divisor is refused, whatever its sign and its number of digits.
pub divide_zero :
    (t u : Text) (a b : ParsedDecimal) (max_digits : ℕ)
    → parse_decimal t ≡ ok a
    → parse_decimal u ≡ ok b
    → b.coefficient ≡ 0
    → divide_decimals t u max_digits ≡ err (decimal zero_divisor)
unfolding divide_decimals
divide_zero t u a b max_digits ha hb h = rw (ha, hb) (ground arith)

-- compareDecimals reports a text with a minus sign and coefficient zero as less than a text
-- without it and coefficient zero, and the other way round as greater, though their values are
-- equal.
pub compare_negative_zero :
    (t u : Text) (a b : ParsedDecimal)
    → parse_decimal t ≡ ok a
    → parse_decimal u ≡ ok b
    → a.sign ≡ minus
    → b.sign ≡ plus
    → a.coefficient ≡ 0
    → b.coefficient ≡ 0
    → (compare_decimals t u ≡ ok Ordering.lt)
      × (compare_decimals u t ≡ ok Ordering.gt)
      × (a.coefficient * 10 ^ b.scale ≡ b.coefficient * 10 ^ a.scale)
unfolding compare_decimals
compare_negative_zero t u a b ha hb sa sb za zb =
    rw (ha, hb, sa, sb, za, zb) (refl, refl, omega arith)

-- `'0'` is zero at every scale.
pub zero_text-Denotes : (k : ℕ) → Denotes zero_text (pos 0) k
unfolding parse_decimal decimal_format
zero_text-Denotes k = record {
  parsed = record { sign = plus; coefficient = 0; scale = 0 };
  parses = refl;
  holds = record { signed_as = refl; value = omega arith };
}

pub is_decimal-Denotes : {t : Text} {z : ℤ} {k : ℕ} → Denotes t z k → is_decimal_string t ≡ true
is_decimal-Denotes {t} h = elim (parse_total t) [
  | inl (d, p, good) ↦ good
  | inr (p, bad) ↦ cc (h.parses)
]
