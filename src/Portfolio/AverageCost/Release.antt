-- ===== src/Portfolio/AverageCost/Release.antt =====
-- The cost that a disposal releases is at most the cost that is pooled.
use native.Mathlib.Nat.{mul-le-mul_right, mul-pos}
use nest_backend.Common.{
  ℕ, ◌+◌, ◌*◌, ◌^◌, ◌≤◌, ◌<◌, ◌≡◌, refl, arith, Result, ok, ◌>>=◌, Ordering, compare, ℕ-cases, inl,
  inr,
}
use nest_backend.Common.Int.{pos}
use nest_backend.Common.Powers.{pow-add, pow_pos}
use nest_backend.Common.Text.{Text}
use nest_backend.Decimal.{divide_decimals, multiply_decimals, zero_text}
use nest_backend.Decimal.Value.{Denotes}
use nest_backend.Decimal.Arithmetic.{multiply-Returns}
use nest_backend.Decimal.Order.{compare-Denotes}
use nest_backend.Decimal.Division.{divide-ReturnsQuotient}
use nest_backend.Decimal.Laws.{zero_text-Denotes}
use nest_backend.Decimal.Scales.{NonNegative, AtMost, Denotes-widen, Denotes_widen_left}
use nest_backend.Portfolio.AverageCost.{release_proportional_basis, division_max_fraction_digits}

-- A release that is returned, and leaves no negative cost.
pub record Releases (r : Result Text) {cost : Text} (pooled : NonNegative cost) : Type 0 where
  pub text : Text
  pub returns : r ≡ ok text
  pub value : NonNegative text
  pub at_most : AtMost value pooled

release_nothing : {cost : Text} (pooled : NonNegative cost) → Releases (ok zero_text) pooled
release_nothing pooled = record {
  text = zero_text;
  returns = refl;
  value = record { numerator = 0; scale = 0; denotes = zero_text-Denotes 0 };
  at_most = omega arith;
}

share_bound :
    (n q d c pj pk ps pr : ℕ)
    → n ≤ q
    → pr ≡ pk * ps
    → d * (q * pj) ≤ c * pk * ps
    → n * d * pj ≤ c * pr
share_bound n q d c pj pk ps pr le e h = rw e (omega (arith, h, mul-le-mul_right (d * pj) le))

-- The share of `n` out of `q` units, by the truncated average.
share-Releases :
    {cost quantity amount : Text} (pooled : NonNegative cost) {q n k : ℕ}
    → Denotes quantity (pos q) k
    → Denotes amount (pos n) k
    → n ≤ q
    → 0 < q
    → Releases
        (divide_decimals cost quantity division_max_fraction_digits >>= λ average.
          multiply_decimals amount average)
        pooled
share-Releases pooled {q} {n} {k} hq ha le hp =
    let j = pooled.scale in
    let c = pooled.numerator in
    let average =
      divide-ReturnsQuotient (pos (c * 10 ^ k)) (pos (q * 10 ^ j)) (j + k)
        division_max_fraction_digits (Denotes-widen k pooled.denotes) (Denotes_widen_left j hq)
        (mul-pos hp (pow_pos j)) in
    let product = multiply-Returns n average.coefficient k average.scale ha average.denotes in
    rw average.returns record {
      text = product.text;
      returns = product.returns;
      value = record {
        numerator = n * average.coefficient;
        scale = k + average.scale;
        denotes = product.denotes;
      };
      at_most =
          share_bound n q average.coefficient c (10 ^ j) (10 ^ k) (10 ^ average.scale)
            (10 ^ (k + average.scale)) le (pow-add 10 k average.scale) average.rounded.below;
    }

-- For a disposal of no more than is held, releaseProportionalBasis returns a decimal that is not
-- negative and is at most the pooled cost.
pub release-Releases :
    {cost quantity amount : Text} (pooled : NonNegative cost) {q n k : ℕ}
    → Denotes quantity (pos q) k
    → Denotes amount (pos n) k
    → n ≤ q
    → Releases (release_proportional_basis cost quantity amount) pooled
unfolding release_proportional_basis
release-Releases pooled {q} {n} {k} hq ha le =
    let c = pooled.numerator in
    let cost_test =
      compare-Denotes (pos c) (pos 0) pooled.scale pooled.denotes
        (zero_text-Denotes pooled.scale) in
    let amount_test = compare-Denotes (pos n) (pos 0) k ha (zero_text-Denotes k) in
    elim (ℕ-cases c) [
      | inl free ↦
          let order : compare (c + 0) 0 ≡ Ordering.eq = ground arith in
          rw (cost_test, order) (release_nothing pooled)
      | inr paid ↦
          let order : compare (c + 0) 0 ≡ Ordering.gt = ground arith in
          rw (cost_test, order)
            (elim (ℕ-cases n) [
              | inl nothing ↦
                  let order' : compare (n + 0) 0 ≡ Ordering.eq = ground arith in
                  rw (amount_test, order') (release_nothing pooled)
              | inr something ↦
                  let order' : compare (n + 0) 0 ≡ Ordering.gt = ground arith in
                  rw (amount_test, order') (share-Releases pooled hq ha le (omega arith))
            ])
    ]
