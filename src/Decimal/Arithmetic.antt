-- ===== src/Decimal/Arithmetic.antt =====
-- Products and sums of decimal texts are exact.
use nest_backend.Common.{ℕ, ◌+◌, ◌*◌, ◌^◌, ◌≤◌, ◌≡◌, refl, ap, List, [], ◌∷◌, arith, Result, ok}
use nest_backend.Common.Int.{ℤ, pos}
use nest_backend.Common.Powers.{pow-add}
use nest_backend.Common.Text.{Text}
use nest_backend.Decimal.{
  plus, ParsedDecimal, format_decimal, multiply_decimals, sum_decimals, coefficient_at,
  add_coefficients, max_scale, parse_all, assert_all_non_negative,
}
use nest_backend.Decimal.Value.{Denotes, Denotes-rescale, format-Denotes, coefficient_at_lem}

-- The call returns, and what it returns denotes `z / 10 ^ k`.
pub record Returns (r : Result Text) (z : ℤ) (k : ℕ) : Type 0 where
  pub text : Text
  pub returns : r ≡ ok text
  pub denotes : Denotes text z k

product_value :
    (a b m n p q r s : ℕ) → a * p ≡ m * r → b * q ≡ n * s → a * b * (p * q) ≡ m * n * (r * s)
product_value a b m n p q r s e f =
    omega (arith, ap (λ (t : ℕ). t * (b * q)) e, ap (λ (t : ℕ). m * r * t) f)

-- multiplyDecimals of two decimals that are not negative returns a text that denotes exactly their
-- product.
pub multiply-Returns :
    {a b : Text} (m n : ℕ) (j k : ℕ)
    → Denotes a (pos m) j
    → Denotes b (pos n) k
    → Returns (multiply_decimals a b) (pos (m * n)) (j + k)
unfolding multiply_decimals
multiply-Returns {a} {b} m n j k ha hb =
    let x = ha.parsed in
    let y = hb.parsed in
    record {
      text = format_decimal (x.coefficient * y.coefficient) (x.scale + y.scale) plus;
      returns = rw (ha.parses, hb.parses, ha.holds.signed_as, hb.holds.signed_as);
      denotes =
          Denotes-rescale (x.scale + y.scale) (pos (m * n)) (j + k)
            (format-Denotes (pos (x.coefficient * y.coefficient)) (x.scale + y.scale)) refl
            (rw (pow-add 10 j k, pow-add 10 x.scale y.scale)
              (product_value x.coefficient y.coefficient m n (10 ^ j) (10 ^ k) (10 ^ x.scale)
                (10 ^ y.scale) ha.holds.value hb.holds.value));
    }

-- A text beside the natural number over `10 ^ k` that it is to denote.
abbrev pub Summand : Type 0
Summand = Text × ℕ

abbrev pub texts : List Summand → List Text
texts [] = []
texts ((t, n) ∷ vs) = t ∷ texts vs

abbrev pub total : List Summand → ℕ
total [] = 0
total ((t, n) ∷ vs) = n + total vs

abbrev pub AllDenote : ℕ → List Summand → Type 0
AllDenote k [] = Unit
AllDenote k ((t, n) ∷ vs) = Denotes t (pos n) k × AllDenote k vs

parsed_all : (k : ℕ) (vs : List Summand) → AllDenote k vs → List ParsedDecimal
parsed_all k [] h = []
parsed_all k ((t, n) ∷ vs) h = h.0.parsed ∷ parsed_all k vs h.1

parse_all-AllDenote :
    (k : ℕ) (vs : List Summand) (h : AllDenote k vs) → parse_all (texts vs) ≡ ok (parsed_all k vs h)
unfolding parsed_all
parse_all-AllDenote k [] h = refl
parse_all-AllDenote k ((t, n) ∷ vs) h = rw (h.0.parses, parse_all-AllDenote k vs h.1)

assert_all-AllDenote :
    (k : ℕ) (vs : List Summand) (h : AllDenote k vs)
    → assert_all_non_negative (parsed_all k vs h) ≡ ok tt
unfolding parsed_all
assert_all-AllDenote k [] h = refl
assert_all-AllDenote k ((t, n) ∷ vs) h = rw h.0.holds.signed_as (assert_all-AllDenote k vs h.1)

sum_step :
    (acc c n rest p s : ℕ) (r : ℕ)
    → c * p ≡ n * s
    → r * p ≡ (acc + c) * p + rest * s
    → r * p ≡ acc * p + (n + rest) * s
sum_step acc c n rest p s r e f = omega arith

-- The accumulator gains each value at the common scale.
add_coefficients-total :
    (k : ℕ) (s acc : ℕ) (vs : List Summand) (h : AllDenote k vs)
    → max_scale (parsed_all k vs h) ≤ s
    → add_coefficients s acc (parsed_all k vs h) * 10 ^ k ≡ acc * 10 ^ k + total vs * 10 ^ s
unfolding parsed_all
add_coefficients-total k s acc [] h le = omega arith
add_coefficients-total k s acc ((t, n) ∷ vs) h le =
    let c = coefficient_at s h.0.parsed in
    sum_step acc c n (total vs) (10 ^ k) (10 ^ s)
      (add_coefficients s (acc + c) (parsed_all k vs h.1))
      (coefficient_at_lem s h.0.holds (omega arith))
      (add_coefficients-total k s (acc + c) vs h.1 (omega arith))

-- sumDecimals of at least one decimal, none negative, returns a text that denotes exactly their
-- sum.
pub sum-Returns :
    (k : ℕ) (v : Summand) (vs : List Summand)
    → AllDenote k (v ∷ vs)
    → Returns (sum_decimals (texts (v ∷ vs))) (pos (total (v ∷ vs))) k
unfolding sum_decimals
sum-Returns k v vs h =
    let ds = parsed_all k (v ∷ vs) h in
    let s = max_scale ds in
    record {
      text = format_decimal (add_coefficients s 0 ds) s plus;
      returns = rw (parse_all-AllDenote k (v ∷ vs) h, assert_all-AllDenote k (v ∷ vs) h);
      denotes =
          Denotes-rescale s (pos (total (v ∷ vs))) k
            (format-Denotes (pos (add_coefficients s 0 ds)) s) refl
            (omega (arith, add_coefficients-total k s 0 (v ∷ vs) h (omega arith)));
    }
