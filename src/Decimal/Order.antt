-- ===== src/Decimal/Order.antt =====
-- Comparison and subtraction of decimal texts.
use nest_backend.Common.{
  ℕ, ◌+◌, ◌*◌, ◌^◌, ◌≤◌, ◌<◌, ◌≡◌, sym, max, compare, arith, ok, if◌then◌else◌,
}
use nest_backend.Common.Int.{
  ℤ, pos, negsuc, abs, is_negative, compare_ℤ, ◌-ℤ◌, sub_ℕ, pos_part, neg_part,
}
use nest_backend.Common.Powers.{pow_pos, le_scaled, sub-mul}
use nest_backend.Common.Text.{Text}
use nest_backend.Decimal.{
  Sign, plus, minus, ParsedDecimal, format_decimal, coefficient_at, compare_parsed,
  compare_decimals, subtract_decimals, signed,
}
use nest_backend.Decimal.Value.{
  sign_of, Holds, Denotes, Denotes-rescale, format-Denotes, coefficient_at_lem,
}
use nest_backend.Decimal.Arithmetic.{Returns}

compare_of_orders :
    (c d m n : ℕ)
    → (c ≤ d → m ≤ n)
    → (d ≤ c → n ≤ m)
    → (m ≤ n → c ≤ d)
    → (n ≤ m → d ≤ c)
    → compare c d ≡ compare m n
compare_of_orders c d m n h i j k = ground arith

pub compare_scaled :
    (c d m n p q : ℕ) → 0 < p → 0 < q → c * p ≡ m * q → d * p ≡ n * q → compare c d ≡ compare m n
compare_scaled c d m n p q hp hq e f =
    compare_of_orders c d m n (le_scaled c d m n p q hp hq e f) (le_scaled d c n m p q hp hq f e)
      (le_scaled m n c d q p hq hp (sym e) (sym f)) (le_scaled n m d c q p hq hp (sym f) (sym e))

-- At a common scale the coefficients are ordered as the numbers.
compare_coefficients :
    {a b : ParsedDecimal} (x y : ℤ) (k : ℕ)
    → Holds a x k
    → Holds b y k
    → let s = max a.scale b.scale in
      compare (coefficient_at s a) (coefficient_at s b) ≡ compare (abs x) (abs y)
compare_coefficients {a} {b} x y k ha hb =
    let s = max a.scale b.scale in
    compare_scaled (coefficient_at s a) (coefficient_at s b) (abs x) (abs y) (10 ^ k) (10 ^ s)
      (pow_pos k) (pow_pos s) (coefficient_at_lem s ha (omega arith))
      (coefficient_at_lem s hb (omega arith))

compare_parsed-Holds :
    {a b : ParsedDecimal} (x y : ℤ) (k : ℕ)
    → Holds a x k
    → Holds b y k
    → compare_parsed a b ≡ compare_ℤ x y
compare_parsed-Holds (pos m) (pos n) k ha hb =
    rw (ha.signed_as, hb.signed_as) (ground (arith, compare_coefficients (pos m) (pos n) k ha hb))
compare_parsed-Holds (pos m) (negsuc n) k ha hb = rw (ha.signed_as, hb.signed_as) (ground arith)
compare_parsed-Holds (negsuc m) (pos n) k ha hb = rw (ha.signed_as, hb.signed_as) (ground arith)
compare_parsed-Holds (negsuc m) (negsuc n) k ha hb =
    rw (ha.signed_as, hb.signed_as)
      (ground (arith, compare_coefficients (negsuc m) (negsuc n) k ha hb))

-- compareDecimals of two decimals that denote integers over the same power of ten, zero without a
-- minus sign, returns the order of these integers.
pub compare-Denotes :
    {t u : Text} (x y : ℤ) (k : ℕ)
    → Denotes t x k
    → Denotes u y k
    → compare_decimals t u ≡ ok (compare_ℤ x y)
unfolding compare_decimals
compare-Denotes x y k ht hu =
    rw (ht.parses, hu.parses, compare_parsed-Holds x y k ht.holds hu.holds)

abbrev positive : Sign → ℕ → ℕ
positive plus n = n
positive minus n = 0

abbrev negative : Sign → ℕ → ℕ
negative plus n = 0
negative minus n = n

signed-sub :
    (s t : Sign) (c d : ℕ)
    → signed s c -ℤ signed t d ≡ sub_ℕ (positive s c + negative t d) (negative s c + positive t d)
unfolding ◌-ℤ◌
signed-sub plus plus c d = ground arith
signed-sub plus minus c d = ground arith
signed-sub minus plus c d = ground arith
signed-sub minus minus c d = ground arith

-- Scaling both parts of a difference keeps its sign and scales its size.
sub_ℕ_scaled :
    (c d m n p q : ℕ)
    → 0 < p
    → 0 < q
    → c * p ≡ m * q
    → d * p ≡ n * q
    → (sign_of (sub_ℕ c d) ≡ sign_of (sub_ℕ m n)) × (abs (sub_ℕ c d) * p ≡ abs (sub_ℕ m n) * q)
sub_ℕ_scaled c d m n p q hp hq e f = ground (
  arith,
  compare_scaled d c n m p q hp hq f e,
  sub-mul c d p,
  sub-mul d c p,
  sub-mul m n q,
  sub-mul n m q,
)

positive_scaled :
    (x : ℤ) (c p q : ℕ) → c * p ≡ abs x * q → positive (sign_of x) c * p ≡ pos_part x * q
positive_scaled (pos m) c p q e = e
positive_scaled (negsuc m) c p q e = omega arith

negative_scaled :
    (x : ℤ) (c p q : ℕ) → c * p ≡ abs x * q → negative (sign_of x) c * p ≡ neg_part x * q
negative_scaled (pos m) c p q e = omega arith
negative_scaled (negsuc m) c p q e = e

sum_scaled : (a b m n p q : ℕ) → a * p ≡ m * q → b * p ≡ n * q → (a + b) * p ≡ (m + n) * q
sum_scaled a b m n p q e f = omega arith

-- Two coefficients at scales `p` and `q` are subtracted with their signs.
signed_difference :
    (x y : ℤ) (c d p q : ℕ)
    → 0 < p
    → 0 < q
    → c * p ≡ abs x * q
    → d * p ≡ abs y * q
    → let z = signed (sign_of x) c -ℤ signed (sign_of y) d in
      (sign_of z ≡ sign_of (x -ℤ y)) × (abs z * p ≡ abs (x -ℤ y) * q)
signed_difference x y c d p q hp hq e f = rw (signed-sub (sign_of x) (sign_of y) c d) (
    unfold ◌-ℤ◌ in
    sub_ℕ_scaled (positive (sign_of x) c + negative (sign_of y) d)
      (negative (sign_of x) c + positive (sign_of y) d) (pos_part x + neg_part y)
      (neg_part x + pos_part y) p q hp hq
      (sum_scaled (positive (sign_of x) c) (negative (sign_of y) d) (pos_part x) (neg_part y) p q
        (positive_scaled x c p q e) (negative_scaled y d p q f))
      (sum_scaled (negative (sign_of x) c) (positive (sign_of y) d) (neg_part x) (pos_part y) p q
        (negative_scaled x c p q e) (positive_scaled y d p q f)))

-- subtractDecimals of two decimals, of either sign, returns a text that denotes exactly their
-- difference.
pub subtract-Returns :
    {t u : Text} (x y : ℤ) (k : ℕ)
    → Denotes t x k
    → Denotes u y k
    → Returns (subtract_decimals t u) (x -ℤ y) k
unfolding subtract_decimals
subtract-Returns x y k ht hu =
    let a = ht.parsed in
    let b = hu.parsed in
    let s = max a.scale b.scale in
    let z = signed (sign_of x) (coefficient_at s a) -ℤ signed (sign_of y) (coefficient_at s b) in
    let same =
      signed_difference x y (coefficient_at s a) (coefficient_at s b) (10 ^ k) (10 ^ s) (pow_pos k)
        (pow_pos s) (coefficient_at_lem s ht.holds (omega arith))
        (coefficient_at_lem s hu.holds (omega arith)) in
    record {
      text = format_decimal (abs z) s (if is_negative z then minus else plus);
      returns = rw (ht.parses, hu.parses, ht.holds.signed_as, hu.holds.signed_as);
      denotes = Denotes-rescale s (x -ℤ y) k (format-Denotes z s) same.0 same.1;
    }
