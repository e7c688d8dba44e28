-- ===== src/Decimal/Scales.antt =====
-- Decimals that are not negative, each at a scale of its own.
use native.Mathlib.Nat.{add_comm}
use nest_backend.Common.{ℕ, ◌+◌, ◌-◌, ◌*◌, ◌^◌, ◌≤◌, ◌≡◌, refl, arith, Result, ok, [], ◌∷◌}
use nest_backend.Common.Int.{pos, ◌-ℤ◌}
use nest_backend.Common.Powers.{pow-add}
use nest_backend.Common.Text.{Text}
use nest_backend.Decimal.{sum_decimals, subtract_decimals, multiply_decimals}
use nest_backend.Decimal.Value.{Denotes, Denotes-rescale}
use nest_backend.Decimal.Arithmetic.{Returns, sum-Returns, multiply-Returns}
use nest_backend.Decimal.Order.{subtract-Returns}

pub Denotes-widen :
    {t : Text} {n k : ℕ} (j : ℕ) → Denotes t (pos n) k → Denotes t (pos (n * 10 ^ j)) (k + j)
Denotes-widen {t} {n} {k} j h =
    Denotes-rescale k (pos (n * 10 ^ j)) (k + j) h refl (rw (pow-add 10 k j) (omega arith))

pub Denotes_widen_left :
    {t : Text} {n k : ℕ} (j : ℕ) → Denotes t (pos n) k → Denotes t (pos (n * 10 ^ j)) (j + k)
Denotes_widen_left {t} {n} {k} j h = rw (add_comm j k) (Denotes-widen j h)

-- The sum of two decimals that are not negative, at scale `k`.
pub sum_two :
    {t u : Text} {m n k : ℕ}
    → Denotes t (pos m) k
    → Denotes u (pos n) k
    → Returns (sum_decimals (t ∷ u ∷ [])) (pos (m + n)) k
sum_two {t} {u} {m} {n} {k} h g =
    let e : m + (n + 0) ≡ m + n = omega arith in
    rw e at (sum-Returns k (t, m) ((u, n) ∷ []) (h, (g, tt)))

sub-pos : (m n : ℕ) → n ≤ m → pos m -ℤ pos n ≡ pos (m - n)
unfolding ◌-ℤ◌
sub-pos m n le = ground arith

-- The difference, of which the second is not the larger.
pub subtract_two :
    {t u : Text} {m n k : ℕ}
    → Denotes t (pos m) k
    → Denotes u (pos n) k
    → n ≤ m
    → Returns (subtract_decimals t u) (pos (m - n)) k
subtract_two {t} {u} {m} {n} {k} h g le =
    rw (sub-pos m n le) at (subtract-Returns (pos m) (pos n) k h g)

-- A decimal that is not negative, at some scale.
pub record NonNegative (t : Text) : Type 0 where
  pub numerator : ℕ
  pub scale : ℕ
  pub denotes : Denotes t (pos numerator) scale

-- `t` is at most `u`: the comparison of the two fractions.
abbrev pub AtMost : {t u : Text} → NonNegative t → NonNegative u → Type 0
AtMost a b = a.numerator * 10 ^ b.scale ≤ b.numerator * 10 ^ a.scale

-- The call returns a decimal that is not negative.
pub record ReturnsNonNegative (r : Result Text) : Type 0 where
  pub text : Text
  pub returns : r ≡ ok text
  pub value : NonNegative text

of_Returns : {r : Result Text} {n k : ℕ} → Returns r (pos n) k → ReturnsNonNegative r
of_Returns {r} {n} {k} h = record {
  text = h.text;
  returns = h.returns;
  value = record { numerator = n; scale = k; denotes = h.denotes };
}

pub sum-NonNegative :
    {t u : Text} → NonNegative t → NonNegative u → ReturnsNonNegative (sum_decimals (t ∷ u ∷ []))
sum-NonNegative a b =
    of_Returns (sum_two (Denotes-widen b.scale a.denotes) (Denotes_widen_left a.scale b.denotes))

pub multiply-NonNegative :
    {t u : Text} → NonNegative t → NonNegative u → ReturnsNonNegative (multiply_decimals t u)
multiply-NonNegative a b =
    of_Returns (multiply-Returns a.numerator b.numerator a.scale b.scale a.denotes b.denotes)

pub subtract-NonNegative :
    {t u : Text} (a : NonNegative t) (b : NonNegative u)
    → AtMost b a
    → ReturnsNonNegative (subtract_decimals t u)
subtract-NonNegative a b le =
    of_Returns
      (subtract_two (Denotes-widen b.scale a.denotes) (Denotes_widen_left a.scale b.denotes) le)
