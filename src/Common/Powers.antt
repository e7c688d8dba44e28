-- ===== src/Common/Powers.antt =====
-- Powers: the laws that the native numbers lack, and cancellation of a positive factor.
use Prim.Native.Nat.{ℕ, zero, suc, ◌+◌, ◌-◌, ◌*◌, ◌^◌, ◌≤◌, ◌<◌}
use mathlib.Core.Path.{◌≡◌}
use native.Mathlib.Nat.{
  add-zero, add-suc, pow-suc, pow-zero, one-le-pow, eq_of_mul-eq-mul_right, mul-one, mul_assoc,
  mul_comm, mul-sub, add-sub_of_le, le_of_mul-le-mul_right, mul-le-mul_right,
}
use native.Mathlib.Omega.{arith}

pub pow-add : (b m n : ℕ) → b ^ (m + n) ≡ b ^ m * b ^ n
pow-add b m zero = rw (add-zero, pow-zero, mul-one)
pow-add b m (suc n) = rw (add-suc, pow-suc, pow-suc, pow-add b m n, mul_assoc)

pub pow_pos : (n : ℕ) → 0 < 10 ^ n
pow_pos n = one-le-pow n 10 (omega arith)

pub pow_split_base : (b m n : ℕ) → m ≤ n → b ^ n ≡ b ^ m * b ^ (n - m)
pow_split_base b m n h = rw (← pow-add b m (n - m), add-sub_of_le h)

pub pow_split : (m n : ℕ) → m ≤ n → 10 ^ n ≡ 10 ^ m * 10 ^ (n - m)
pow_split = pow_split_base 10

-- Two products with a common positive factor on each side are ordered as the other factors.
pub le_scaled : (c d m n p q : ℕ) → 0 < p → 0 < q → c * p ≡ m * q → d * p ≡ n * q → c ≤ d → m ≤ n
le_scaled c d m n p q hp hq e f h =
    le_of_mul-le-mul_right {k = q} (rw (← e, ← f) (mul-le-mul_right p h)) hq

pub mul_cancel_right : (m n k : ℕ) → 0 < k → m * k ≡ n * k → m ≡ n
mul_cancel_right m n k h e = eq_of_mul-eq-mul_right k h m n e

pub sub-mul : (c d p : ℕ) → (c - d) * p ≡ c * p - d * p
sub-mul c d p = rw (mul_comm (c - d) p, mul-sub, mul_comm p c, mul_comm p d)
