-- ===== src/Decimal/Division.antt =====
-- Division of decimal texts.
use native.Mathlib.Nat.{
  mul-le-mul_right, mul-lt-mul_of_pos_right, le_of_mul-le-mul_right, lt_of_mul-lt-mul_right,
  mul-pos,
}
use nest_backend.Common.{
  ℕ, ◌*◌, ◌^◌, ◌<◌, ◌≡◌, inl, inr, refl, ap, false, arith, ◌==◌, if◌then◌else◌, Result, ok, ℕ-cases,
}
use nest_backend.Common.Int.{ℤ, abs}
use nest_backend.Common.Powers.{pow_pos, mul_cancel_right}
use nest_backend.Common.Text.{Text}
use nest_backend.Decimal.{
  Sign, plus, minus, same_sign, format_decimal, signed, quotient, divide_decimals,
}
use nest_backend.Decimal.RoundTrip.{format-Reads}
use nest_backend.Decimal.Value.{sign_of, Denotes, Reads-Denotes}
use nest_backend.Decimal.Finite.{IsFinite, quotient_exact}
use nest_backend.Decimal.Quotient.{IsQuotient, quotient-IsQuotient}

-- Two fractions with the same value have the same quotients.
same_fraction :
    (num den m n max_digits c s : ℕ)
    → 0 < den
    → 0 < n
    → num * n ≡ m * den
    → IsQuotient num den max_digits c s
    → IsQuotient m n max_digits c s
same_fraction num den m n max_digits c s hd hn e q = record {
  below =
      le_of_mul-le-mul_right {k = den}
        (omega (arith, mul-le-mul_right n q.below, ap (λ (t : ℕ). t * 10 ^ s) e)) hd;
  above =
      lt_of_mul-lt-mul_right den
        (omega (arith, mul-lt-mul_of_pos_right q.above hn, ap (λ (t : ℕ). t * 10 ^ s) e));
  cut_off = elim q.cut_off [
    | inl limit ↦ inl limit
    | inr exact ↦ inr (
        mul_cancel_right (c * n) (m * 10 ^ s) den hd
          (omega (arith, ap (λ (t : ℕ). t * n) exact, ap (λ (t : ℕ). t * 10 ^ s) e)))
  ];
}

cross_value : (a b m n p q r : ℕ) → 0 < p → a * p ≡ m * q → b * p ≡ n * r → a * r * n ≡ m * (b * q)
cross_value a b m n p q r hp e f =
    mul_cancel_right (a * r * n) (m * (b * q)) p hp
      (omega (arith, ap (λ (t : ℕ). t * (r * n)) e, ap (λ (t : ℕ). m * q * t) f))

nonzero_coefficient : (b n p r : ℕ) → 0 < p → 0 < r → 0 < n → b * p ≡ n * r → 0 < b
nonzero_coefficient b n p r hp hr hn e = elim (ℕ-cases b) [
  | inl none ↦ absurd (let z : 0 * p ≡ n * r = rw none at e in let w = mul-pos hn hr in omega arith)
  | inr found ↦ found
]

printed_sign : (s : Sign) (c : ℕ) → (if c == 0 then plus else s) ≡ sign_of (signed s c)
printed_sign plus c = ground arith
printed_sign minus c = ground arith

abs-signed : (s : Sign) (c : ℕ) → abs (signed s c) ≡ c
abs-signed plus c = refl
abs-signed minus c = ground arith

print-Denotes : (s : Sign) (c k : ℕ) → Denotes (format_decimal c k s) (signed s c) k
print-Denotes s c k =
    Reads-Denotes (signed s c) k (rw (← printed_sign s c, abs-signed s c) (format-Reads c k s))

-- The call returns, and what it returns is the quotient of `x` by `y`, rounded towards zero.
pub record ReturnsQuotient (r : Result Text) (x y : ℤ) (max_digits : ℕ) : Type 0 where
  pub text : Text
  pub returns : r ≡ ok text
  pub coefficient : ℕ
  pub scale : ℕ
  pub denotes :
      Denotes text
        (signed (if same_sign (sign_of x) (sign_of y) then plus else minus) coefficient)
        scale
  pub rounded : IsQuotient (abs x) (abs y) max_digits coefficient scale

-- For decimals with a nonzero divisor, divideDecimals returns a text that denotes the quotient
-- with its sign, exactly or rounded towards zero at the digit limit.
pub divide-ReturnsQuotient :
    {t u : Text} (x y : ℤ) (k max_digits : ℕ)
    → Denotes t x k
    → Denotes u y k
    → 0 < abs y
    → ReturnsQuotient (divide_decimals t u max_digits) x y max_digits
unfolding divide_decimals
divide-ReturnsQuotient x y k max_digits ht hu hy =
    let a = ht.parsed in
    let b = hu.parsed in
    let b_pos : 0 < b.coefficient =
      nonzero_coefficient b.coefficient (abs y) (10 ^ k) (10 ^ b.scale) (pow_pos k)
        (pow_pos b.scale) hy hu.holds.value in
    let nonzero : (b.coefficient == 0) ≡ false = ground arith in
    let num = a.coefficient * 10 ^ b.scale in
    let den = b.coefficient * 10 ^ a.scale in
    let q = quotient num den max_digits in
    let s = if same_sign (sign_of x) (sign_of y) then plus else minus in
    record {
      text = format_decimal q.0 q.1 s;
      returns = rw (ht.parses, hu.parses, nonzero, ht.holds.signed_as, hu.holds.signed_as);
      coefficient = q.0;
      scale = q.1;
      denotes = print-Denotes s q.0 q.1;
      rounded =
          same_fraction num den (abs x) (abs y) max_digits q.0 q.1 (mul-pos b_pos (pow_pos a.scale))
            hy
            (cross_value a.coefficient b.coefficient (abs x) (abs y) (10 ^ k) (10 ^ a.scale)
              (10 ^ b.scale) (pow_pos k) ht.holds.value hu.holds.value)
            (quotient-IsQuotient num den max_digits (mul-pos b_pos (pow_pos a.scale)));
    }

IsFinite-fraction : (num den m n : ℕ) → 0 < n → num * n ≡ m * den → IsFinite m n → IsFinite num den
IsFinite-fraction num den m n hn e (k, (q, f)) = (
  k,
  (
    q,
    mul_cancel_right (num * 10 ^ k) (q * den) n hn
        (omega (arith, ap (λ (t : ℕ). t * 10 ^ k) e, ap (λ (t : ℕ). t * den) f)),
  ),
)

exact_fraction :
    (num den m n c p : ℕ) → 0 < den → num * n ≡ m * den → c * den ≡ num * p → c * n ≡ m * p
exact_fraction num den m n c p hd e f =
    mul_cancel_right (c * n) (m * p) den hd
      (omega (arith, ap (λ (t : ℕ). t * p) e, ap (λ (t : ℕ). t * n) f))

-- The call returns, and what it returns is exactly the quotient of `x` by `y`.
pub record ReturnsExact (r : Result Text) (x y : ℤ) : Type 0 where
  pub text : Text
  pub returns : r ≡ ok text
  pub coefficient : ℕ
  pub scale : ℕ
  pub denotes :
      Denotes text
        (signed (if same_sign (sign_of x) (sign_of y) then plus else minus) coefficient)
        scale
  pub exact : coefficient * abs y ≡ abs x * 10 ^ scale

-- For decimals with a nonzero divisor and a quotient that some power of ten makes whole,
-- divideDecimals returns a text that denotes exactly that quotient, whatever the digit limit.
pub divide-ReturnsExact :
    {t u : Text} (x y : ℤ) (k max_digits : ℕ)
    → Denotes t x k
    → Denotes u y k
    → 0 < abs y
    → IsFinite (abs x) (abs y)
    → ReturnsExact (divide_decimals t u max_digits) x y
unfolding divide_decimals
divide-ReturnsExact x y k max_digits ht hu hy finite =
    let a = ht.parsed in
    let b = hu.parsed in
    let b_pos : 0 < b.coefficient =
      nonzero_coefficient b.coefficient (abs y) (10 ^ k) (10 ^ b.scale) (pow_pos k)
        (pow_pos b.scale) hy hu.holds.value in
    let nonzero : (b.coefficient == 0) ≡ false = ground arith in
    let num = a.coefficient * 10 ^ b.scale in
    let den = b.coefficient * 10 ^ a.scale in
    let den_pos = mul-pos b_pos (pow_pos a.scale) in
    let q = quotient num den max_digits in
    let s = if same_sign (sign_of x) (sign_of y) then plus else minus in
    let cross =
      cross_value a.coefficient b.coefficient (abs x) (abs y) (10 ^ k) (10 ^ a.scale) (10 ^ b.scale)
        (pow_pos k) ht.holds.value hu.holds.value in
    record {
      text = format_decimal q.0 q.1 s;
      returns = rw (ht.parses, hu.parses, nonzero, ht.holds.signed_as, hu.holds.signed_as);
      coefficient = q.0;
      scale = q.1;
      denotes = print-Denotes s q.0 q.1;
      exact = exact_fraction num den (abs x) (abs y) q.0 (10 ^ q.1) den_pos cross (
          quotient_exact num den max_digits den_pos
            (IsFinite-fraction num den (abs x) (abs y) hy cross finite));
    }
