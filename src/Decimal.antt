-- ===== src/Decimal.antt =====
-- src/core/decimal/decimal.util.ts: exact arithmetic on decimal strings. A `bigint` coefficient is
-- a natural number beside its sign, and a `throw` is an `err`.
pub mod RoundTrip
pub mod Value
pub mod Arithmetic
pub mod Order
pub mod Gcd
pub mod Quotient
pub mod Division
pub mod Finite
pub mod Laws
pub mod Grammar
pub mod Scales
pub mod Canonical
pub mod Syntax
mod Tests
mod Witnesses
use nest_backend.Common.{
  ℕ, zero, suc, ◌+◌, ◌-◌, ◌*◌, ◌/◌, ◌%◌, ◌^◌, max, Ordering, Bool, true, false, not, ◌&&◌, List, [],
  ◌∷◌, ◌++◌, ltb, ◌==◌, if◌then◌else◌, length, take, drop, is_empty, all, Result, ok, err, ◌>>=◌,
  ◌>>◌, throw_if, decimal, invalid_decimal_string, negative_operand, empty_sum, zero_divisor,
}
use nest_backend.Common.Int.{ℤ, pos, negsuc, ◌-ℤ◌, abs, is_negative, sub_ℕ}
use nest_backend.Common.Text.{Text, is_digit, big_int, to_string, pad_start, split, starts_with}

pub data Sign : Type 0 where
  plus minus : Sign

abbrev pub is_minus : Sign → Bool
is_minus plus = false
is_minus minus = true

abbrev pub same_sign : Sign → Sign → Bool
same_sign plus plus = true
same_sign minus minus = true
same_sign _ _ = false

pub record ParsedDecimal : Type 0 where
  pub sign : Sign
  pub coefficient : ℕ
  pub scale : ℕ

-- `\d+`
abbrev pub is_digits : Text → Bool
is_digits s = not (is_empty s) && all is_digit s

-- `\d*(\.\d+)?$`
abbrev pub matches_rest : Text → Bool
matches_rest [] = true
matches_rest (c ∷ s) = if is_digit c then matches_rest s else c == b'.' && is_digits s

abbrev pub matches_unsigned : Text → Bool
matches_unsigned [] = false
matches_unsigned (c ∷ s) = is_digit c && matches_rest s

abbrev pub without_sign : Text → Text
without_sign value = if starts_with b'-' value then drop 1 value else value

-- `/^-?\d+(\.\d+)?$/`
unfoldable pub decimal_format : Text → Bool
decimal_format value = matches_unsigned (without_sign value)

-- `[integerPart, fractionPart = '']`
abbrev pub first_part : List Text → Text
first_part [] = []
first_part (p ∷ ps) = p

abbrev pub second_part : List Text → Text
second_part [] = []
second_part (p ∷ ps) = first_part ps

unfoldable pub parse_decimal : Text → Result ParsedDecimal
parse_decimal value = do
  throw_if (not (decimal_format value)) (decimal invalid_decimal_string)
  let parts = split b'.' (without_sign value)
  ok (record {
    sign = if starts_with b'-' value then minus else plus;
    coefficient = big_int (first_part parts ++ second_part parts);
    scale = length (second_part parts);
  })

-- `s.replace(/0+$/, '')`
abbrev pub drop_zero : ℕ → Text → Text
drop_zero c rest = if c == b'0' && is_empty rest then [] else c ∷ rest

abbrev pub strip_zeros : Text → Text
strip_zeros [] = []
strip_zeros (c ∷ s) = drop_zero c (strip_zeros s)

abbrev pub with_sign : Sign → Text → Text
with_sign plus s = s
with_sign minus s = b'-' ∷ s

-- `fraction.length === 0 ? integer : integer.fraction`
abbrev pub with_fraction : Text → Text → Text
with_fraction integer [] = integer
with_fraction integer (c ∷ s) = integer ++ b'.' ∷ c ∷ s

-- `formatDecimal` behind its first test.
unfoldable pub print_nonzero : ℕ → ℕ → Sign → Text
print_nonzero coefficient scale sign =
    if scale == 0
    then with_sign sign (to_string coefficient)
    else let digits = pad_start (scale + 1) (to_string coefficient) in
      let integer = take (length digits - scale) digits in
      let fraction = strip_zeros (drop (length digits - scale) digits) in
      with_sign sign (with_fraction integer fraction)

unfoldable pub format_decimal : ℕ → ℕ → Sign → Text
format_decimal coefficient scale sign =
    if coefficient == 0 then b'0' ∷ [] else print_nonzero coefficient scale sign

abbrev pub assert_non_negative : ParsedDecimal → Result (Unit {0})
assert_non_negative value = throw_if (is_minus value.sign) (decimal negative_operand)

unfoldable pub multiply_decimals : Text → Text → Result Text
multiply_decimals left right = do
  a ← parse_decimal left
  b ← parse_decimal right
  assert_non_negative a
  assert_non_negative b
  ok (format_decimal (a.coefficient * b.coefficient) (a.scale + b.scale) plus)

-- The coefficient at a scale that is at least the value's own.
abbrev pub coefficient_at : ℕ → ParsedDecimal → ℕ
coefficient_at scale value = value.coefficient * 10 ^ (scale - value.scale)

abbrev pub parse_all : List Text → Result (List ParsedDecimal)
parse_all [] = ok []
parse_all (value ∷ values) = do
  first ← parse_decimal value
  rest ← parse_all values
  ok (first ∷ rest)

abbrev pub assert_all_non_negative : List ParsedDecimal → Result (Unit {0})
assert_all_non_negative [] = ok tt
assert_all_non_negative (value ∷ values) =
    assert_non_negative value >> assert_all_non_negative values

abbrev pub max_scale : List ParsedDecimal → ℕ
max_scale [] = 0
max_scale (value ∷ values) = max value.scale (max_scale values)

-- `parsed.reduce((total, value) => total + …, total)`
abbrev pub add_coefficients : ℕ → ℕ → List ParsedDecimal → ℕ
add_coefficients scale total [] = total
add_coefficients scale total (value ∷ values) =
    add_coefficients scale (total + coefficient_at scale value) values

unfoldable pub sum_decimals : List Text → Result Text
sum_decimals values = do
  throw_if (is_empty values) (decimal empty_sum)
  parsed ← parse_all values
  assert_all_non_negative parsed
  let scale = max_scale parsed
  ok (format_decimal (add_coefficients scale 0 parsed) scale plus)

unfoldable pub is_decimal_string : Text → Bool
is_decimal_string value = decimal_format value

-- The result -1, 0 or 1 is `lt`, `eq` or `gt`.
abbrev pub compare_parsed : ParsedDecimal → ParsedDecimal → Ordering
compare_parsed a b =
    if not (same_sign a.sign b.sign)
    then (if is_minus a.sign then Ordering.lt else Ordering.gt)
    else let scale = max a.scale b.scale in
      if ltb (coefficient_at scale a) (coefficient_at scale b)
      then (if is_minus a.sign then Ordering.gt else Ordering.lt)
      else if ltb (coefficient_at scale b) (coefficient_at scale a)
      then (if is_minus a.sign then Ordering.lt else Ordering.gt)
      else Ordering.eq

unfoldable pub compare_decimals : Text → Text → Result Ordering
compare_decimals left right = do
  a ← parse_decimal left
  b ← parse_decimal right
  ok (compare_parsed a b)

-- `BigInt(sign) * n`
abbrev pub signed : Sign → ℕ → ℤ
signed plus n = pos n
signed minus n = sub_ℕ 0 n

unfoldable pub subtract_decimals : Text → Text → Result Text
subtract_decimals left right = do
  a ← parse_decimal left
  b ← parse_decimal right
  let scale = max a.scale b.scale
  let difference = signed a.sign (coefficient_at scale a) -ℤ signed b.sign (coefficient_at scale b)
  let sign = if is_negative difference then minus else plus
  ok (format_decimal (abs difference) scale sign)

-- The rounds of `while (right !== 0n)`; `right` falls in each, so `right` rounds are enough.
unfoldable pub gcd_loop : ℕ → ℕ → ℕ → ℕ
gcd_loop zero left right = left
gcd_loop (suc fuel) left right =
    let rest = gcd_loop fuel right (left % right) in if right == 0 then left else rest

unfoldable pub gcd : ℕ → ℕ → ℕ
gcd a b = gcd_loop b a b

-- The rounds of `while (remainder % p === 0n)`, on the count and the remainder. A positive
-- remainder falls in each round, so as many rounds as its value are enough; the source calls it
-- with a positive remainder only.
unfoldable pub divide_out : ℕ → ℕ → ℕ → ℕ → ℕ × ℕ
divide_out zero p count remainder = (count, remainder)
divide_out (suc fuel) p count remainder =
    let rest = divide_out fuel p (count + 1) (remainder / p) in
    if remainder % p == 0 then rest else (count, remainder)

-- What `divideDecimals` prints for a fraction in lowest terms: a coefficient and a scale.
unfoldable pub expand : ℕ → ℕ → ℕ → ℕ × ℕ
expand numerator denominator max_fraction_digits =
    let (twos, odd) = divide_out denominator 2 0 denominator in
    let (fives, remainder) = divide_out odd 5 0 odd in
    let scale = if remainder == 1 then max twos fives else max_fraction_digits in
    ((numerator * 10 ^ scale) / denominator, scale)

unfoldable pub quotient : ℕ → ℕ → ℕ → ℕ × ℕ
quotient numerator denominator max_fraction_digits =
    let common = gcd numerator denominator in
    expand (numerator / common) (denominator / common) max_fraction_digits

unfoldable pub divide_decimals : Text → Text → ℕ → Result Text
divide_decimals dividend divisor max_fraction_digits = do
  a ← parse_decimal dividend
  b ← parse_decimal divisor
  throw_if (b.coefficient == 0) (decimal zero_divisor)
  let (coefficient, scale) =
      quotient (a.coefficient * 10 ^ b.scale) (b.coefficient * 10 ^ a.scale) max_fraction_digits
  ok (format_decimal coefficient scale (if same_sign a.sign b.sign then plus else minus))

-- The literal `'0'`.
abbrev pub zero_text : Text
zero_text = b'0' ∷ []
