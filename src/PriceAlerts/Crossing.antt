-- ===== src/PriceAlerts/Crossing.antt =====
-- When a price crosses its target, on numbers: the order of two parsed prices by cross-multiplying.
use nest_backend.Common.{ℕ, ◌+◌, ◌*◌, ◌^◌, ◌<◌, ◌-◌, ◌≡◌, refl, ap, max, compare, arith, ◌↔◌, true}
use native.Mathlib.Nat.{mul_comm}
use nest_backend.Common.Int.{ℤ, pos, negsuc, pos_part, neg_part}
use nest_backend.Common.Powers.{pow-add, pow_split, pow_pos}
use nest_backend.Decimal.Order.{compare_scaled}
use nest_backend.PriceAlerts.{
  ParsedPrice, AlertDirection, buy, sell, scaled, compare_parsed, crosses,
}

-- Both sides of the comparison of x and y, times 10 ^ (x.scale + y.scale).
abbrev left_side : ParsedPrice → ParsedPrice → ℕ
left_side x y = pos_part x.coefficient * 10 ^ y.scale + neg_part y.coefficient * 10 ^ x.scale

-- The number of `x` is less than the number of `y`.
abbrev pub IsBelow : ParsedPrice → ParsedPrice → Type 0
IsBelow x y =
    pos_part x.coefficient * 10 ^ y.scale + neg_part y.coefficient * 10 ^ x.scale
    < pos_part y.coefficient * 10 ^ x.scale + neg_part x.coefficient * 10 ^ y.scale

-- To sell, the price rises from below the target to it or over it; to buy, it falls from above it.
abbrev pub Crosses : AlertDirection → ParsedPrice → ParsedPrice → ParsedPrice → Type 0
Crosses sell previous current target = IsBelow previous target × ¬ IsBelow current target
Crosses buy previous current target = IsBelow target previous × ¬ IsBelow target current

pos_part-scaled : (z : ℤ) (k : ℕ) → pos_part (scaled z k) ≡ pos_part z * k
pos_part-scaled (pos n) k = refl
pos_part-scaled (negsuc n) k = ground arith

neg_part-scaled : (z : ℤ) (k : ℕ) → neg_part (scaled z k) ≡ neg_part z * k
neg_part-scaled (pos n) k = ground arith
neg_part-scaled (negsuc n) k = ground arith

-- A sum at a common scale, and the same sum crosswise.
sum_across :
    (u v k l a b s : ℕ) → s ≡ a * k → s ≡ b * l → (u * k + v * l) * (a * b) ≡ (u * b + v * a) * s
sum_across u v k l a b s e f =
    let left : u * b * s ≡ u * b * (a * k) = ap (λ (x : ℕ). u * b * x) e in
    let right : v * a * s ≡ v * a * (b * l) = ap (λ (x : ℕ). v * a * x) f in omega arith

compare_across : (x y : ParsedPrice) → compare_parsed x y ≡ compare (left_side x y) (left_side y x)
compare_across x y =
    let s = max x.scale y.scale in
    let k = 10 ^ (s - x.scale) in
    let l = 10 ^ (s - y.scale) in
    let to_x = pow_split x.scale s (omega arith) in
    let to_y = pow_split y.scale s (omega arith) in
    rw
      (
        pos_part-scaled x.coefficient k,
        pos_part-scaled y.coefficient l,
        neg_part-scaled x.coefficient k,
        neg_part-scaled y.coefficient l,
      )
      (compare_scaled (pos_part x.coefficient * k + neg_part y.coefficient * l)
        (pos_part y.coefficient * l + neg_part x.coefficient * k) (left_side x y) (left_side y x)
        (10 ^ x.scale * 10 ^ y.scale) (10 ^ s)
        (rw (← pow-add 10 x.scale y.scale) (pow_pos (x.scale + y.scale))) (pow_pos s)
        (sum_across (pos_part x.coefficient) (neg_part y.coefficient) k l (10 ^ x.scale)
          (10 ^ y.scale) (10 ^ s) to_x to_y)
        (rw (mul_comm (10 ^ x.scale) (10 ^ y.scale)) (
          sum_across (pos_part y.coefficient) (neg_part x.coefficient) l k (10 ^ y.scale)
            (10 ^ x.scale) (10 ^ s) to_y to_x)))

pub crosses-Crosses :
    (direction : AlertDirection) (previous current target : ParsedPrice)
    → crosses direction (compare_parsed previous target) (compare_parsed current target) ≡ true
      ↔ Crosses direction previous current target
crosses-Crosses sell previous current target =
    rw (compare_across previous target, compare_across current target) (ground arith)
crosses-Crosses buy previous current target =
    rw (compare_across previous target, compare_across current target) (ground arith)
