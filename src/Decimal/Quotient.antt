-- ===== src/Decimal/Quotient.antt =====
-- The quotient that the division prints: exact where the decimal expansion is finite, and cut off
-- towards zero behind the last digit where it is not.
use native.Mathlib.Nat.{
  mul-div_cancel, div-mul-le_self, lt-div-mul-add, pow-suc, mul-le-mul_right,
  mul-lt-mul_of_pos_right,
}
use nest_backend.Common.{
  ℕ, zero, suc, ◌+◌, ◌-◌, ◌*◌, ◌/◌, ◌^◌, ◌≤◌, ◌<◌, ◌≡◌, ◌⊎◌, inl, inr, refl, sym, ◌∙◌, ap, arith,
  max, ◌==◌, Bool-cases, ℕ-cases,
}
use nest_backend.Common.Powers.{pow_split_base}
use nest_backend.Decimal.{gcd, divide_out, expand, quotient}
use nest_backend.Decimal.Gcd.{Divides, gcd_lem, divide_out_lem}

-- Division by the common factor.
pub div_of_multiple : (a g q : ℕ) → 0 < g → a ≡ q * g → a / g ≡ q
div_of_multiple a g q hg e = rw e (mul-div_cancel q hg)

pow_two_five : (k : ℕ) → 2 ^ k * 5 ^ k ≡ 10 ^ k
pow_two_five zero = refl
pow_two_five (suc k) =
    rw (pow-suc, pow-suc, pow-suc) (omega (arith, ap (λ (t : ℕ). t * 10) (pow_two_five k)))

regroup : (a b c d m n : ℕ) → m ≡ a * b → n ≡ c * d → m * n ≡ b * d * (a * (c * 1))
regroup a b c d m n e f = rw (e, f) (omega arith)

-- `2 ^ t * 5 ^ f` divides `10 ^ s` for every `s` that is large enough for both.
two_five-Divides : (t f s : ℕ) → t ≤ s → f ≤ s → Divides (2 ^ t * (5 ^ f * 1)) (10 ^ s)
two_five-Divides t f s ht hf = (
  2 ^ (s - t) * 5 ^ (s - f),
  sym (pow_two_five s)
      ∙ regroup (2 ^ t) (2 ^ (s - t)) (5 ^ f) (5 ^ (s - f)) (2 ^ s) (5 ^ s)
          (pow_split_base 2 t s ht) (pow_split_base 5 f s hf),
)

-- The quotient `c / 10 ^ s` of two numbers, rounded towards zero at its last digit.
pub record IsQuotient (numerator denominator max_digits c s : ℕ) : Type 0 where
  pub below : c * denominator ≤ numerator * 10 ^ s
  pub above : numerator * 10 ^ s < (c + 1) * denominator
  pub cut_off : (s ≡ max_digits) ⊎ (c * denominator ≡ numerator * 10 ^ s)

floor_below : (n d g p c : ℕ) → c * d ≤ n * p → c * (d * g) ≤ n * g * p
floor_below n d g p c h = omega (arith, mul-le-mul_right g h)

floor_above : (n d g p c : ℕ) → 0 < g → n * p < c * d + d → n * g * p < (c + 1) * (d * g)
floor_above n d g p c hg h = omega (arith, mul-lt-mul_of_pos_right h hg)

-- Whatever the scale, the division rounds down.
floor-IsQuotient :
    (n d g s max_digits : ℕ)
    → 0 < d
    → 0 < g
    → (s ≡ max_digits) ⊎ ((n * 10 ^ s / d) * d ≡ n * 10 ^ s)
    → IsQuotient (n * g) (d * g) max_digits (n * 10 ^ s / d) s
floor-IsQuotient n d g s max_digits hd hg exact = record {
  below = floor_below n d g (10 ^ s) (n * 10 ^ s / d) (div-mul-le_self (n * 10 ^ s) d);
  above = floor_above n d g (10 ^ s) (n * 10 ^ s / d) hg (lt-div-mul-add hd);
  cut_off = elim exact [
    | inl limit ↦ inl limit
    | inr e ↦ inr (omega (arith, ap (λ (t : ℕ). t * g) e))
  ];
}

div_exact : (n d p q : ℕ) → 0 < d → p ≡ q * d → (n * p / d) * d ≡ n * p
div_exact n d p q hd e =
    ap (λ (t : ℕ). t * d)
      (div_of_multiple (n * p) d (n * q) hd (omega (arith, ap (λ (t : ℕ). n * t) e)))
    ∙ omega (arith, ap (λ (t : ℕ). n * t) e)

expand-IsQuotient :
    (n d g max_digits : ℕ)
    → 0 < d
    → 0 < g
    → let (c, s) = expand n d max_digits in IsQuotient (n * g) (d * g) max_digits c s
unfolding expand
expand-IsQuotient n d g max_digits hd hg =
    let twos = (divide_out d 2 0 d).0 in
    let odd = (divide_out d 2 0 d).1 in
    let by_two = divide_out_lem 2 d (omega arith) hd in
    let fives = (divide_out odd 5 0 odd).0 in
    let rest = (divide_out odd 5 0 odd).1 in
    let by_five = divide_out_lem 5 odd (omega arith) by_two.rest_pos in
    let s = max twos fives in
    elim (Bool-cases (rest == 1)) [
      | inl finite ↦ rw finite (
          let rest_one : rest ≡ 1 = ground arith in
          let d_lem : d ≡ 2 ^ twos * (5 ^ fives * 1) =
            rw rest_one at (by_two.factored ∙ ap (λ (t : ℕ). 2 ^ twos * t) by_five.factored) in
          let (q, e) = two_five-Divides twos fives s (omega arith) (omega arith) in
          floor-IsQuotient n d g s max_digits hd hg
            (inr (div_exact n d (10 ^ s) q hd (e ∙ ap (λ (t : ℕ). q * t) (sym d_lem)))))
      | inr infinite ↦ rw infinite (floor-IsQuotient n d g max_digits max_digits hd hg (inl refl))
    ]

pub factor_pos : (d g m : ℕ) → 0 < m → m ≡ d * g → 0 < d
factor_pos zero g m h e = absurd (omega arith)
factor_pos (suc d) g m h e = omega arith

pub gcd_pos : (a b : ℕ) → 0 < b → 0 < gcd a b
gcd_pos a b h = elim (ℕ-cases (gcd a b)) [
  | inl none ↦
      let (q, e) = (gcd_lem a b).1 in absurd (let z : b ≡ q * 0 = rw none at e in omega arith)
  | inr some_factor ↦ some_factor
]

lowest_terms :
    (numerator denominator n d g a b max_digits : ℕ)
    → numerator ≡ n * g
    → denominator ≡ d * g
    → a ≡ n
    → b ≡ d
    → IsQuotient (n * g) (d * g) max_digits (expand n d max_digits).0 (expand n d max_digits).1
    → IsQuotient numerator denominator max_digits
        (expand a b max_digits).0
        (expand a b max_digits).1
lowest_terms numerator denominator n d g a b max_digits en ed ea eb h = rw (en, ed, ea, eb) h

-- The quotient is rounded down at its last digit, which is exact or the last digit allowed.
pub quotient-IsQuotient :
    (numerator denominator max_digits : ℕ)
    → 0 < denominator
    → let (c, s) = quotient numerator denominator max_digits in
      IsQuotient numerator denominator max_digits c s
unfolding quotient
quotient-IsQuotient numerator denominator max_digits h =
    let g = gcd numerator denominator in
    let g_pos = gcd_pos numerator denominator h in
    let (n, en) = (gcd_lem numerator denominator).0 in
    let (d, ed) = (gcd_lem numerator denominator).1 in
    let d_pos : 0 < d = factor_pos d g denominator h ed in
    lowest_terms numerator denominator n d g (numerator / g) (denominator / g) max_digits en ed
      (div_of_multiple numerator g n g_pos en) (div_of_multiple denominator g d g_pos ed)
      (expand-IsQuotient n d g max_digits d_pos g_pos)
