-- ===== src/Decimal/Gcd.antt =====
-- The loops of the division: the greatest common divisor, and dividing out the twos and fives.
use native.Mathlib.Nat.{div-add-mod, div-lt_self, mod-lt, pow-zero, pow-suc, one-mul}
use nest_backend.Common.{
  ℕ, zero, suc, ◌+◌, ◌-◌, ◌*◌, ◌/◌, ◌%◌, ◌^◌, ◌≤◌, ◌<◌, ◌≡◌, ◌≢◌, ap, arith, ◌==◌, Bool-cases,
  ℕ-cases, inl, inr,
}
use nest_backend.Common.Powers.{sub-mul}
use nest_backend.Decimal.{gcd_loop, gcd, divide_out}

-- `a` is a multiple of `d`.
abbrev pub Divides : ℕ → ℕ → Type 0
Divides d a = (q : ℕ) × (a ≡ q * d)

division_step : (l r d u v : ℕ) → r ≡ u * d → l % r ≡ v * d → l ≡ (u * (l / r) + v) * d
division_step l r d u v e f = omega (arith, div-add-mod l r, ap (λ (t : ℕ). t * (l / r)) e)

gcd_loop-Divides :
    (fuel l r : ℕ) → r ≤ fuel → Divides (gcd_loop fuel l r) l × Divides (gcd_loop fuel l r) r
unfolding gcd_loop
gcd_loop-Divides zero l r h = ((1, omega arith), (0, omega arith))
gcd_loop-Divides (suc fuel) l r h = elim (Bool-cases (r == 0)) [
  | inl done ↦ rw done ((1, omega arith), (0, ground arith))
  | inr more ↦ rw more (
      let ih = gcd_loop-Divides fuel r (l % r) (ground (arith, mod-lt l {m = r})) in
      ((ih.0.0 * (l / r) + ih.1.0, division_step l r _ ih.0.0 ih.1.0 ih.0.1 ih.1.1), ih.0))
]

multiple_difference :
    (l r q w k u v : ℕ) → r * q + w ≡ l → l ≡ u * k → r ≡ v * k → w ≡ (u - v * q) * k
multiple_difference l r q w k u v g e f =
    rw (sub-mul u (v * q) k) (omega (arith, ap (λ (t : ℕ). t * q) f))

remainder_divides : (l r k u v : ℕ) → l ≡ u * k → r ≡ v * k → l % r ≡ (u - v * (l / r)) * k
remainder_divides l r k u v e f =
    multiple_difference l r (l / r) (l % r) k u v (div-add-mod l r) e f

gcd_loop_greatest : (fuel l r k : ℕ) → Divides k l → Divides k r → Divides k (gcd_loop fuel l r)
unfolding gcd_loop
gcd_loop_greatest zero l r k hl hr = hl
gcd_loop_greatest (suc fuel) l r k hl hr = elim (Bool-cases (r == 0)) [
  | inl done ↦ rw done hl
  | inr more ↦ rw more (
      gcd_loop_greatest fuel r (l % r) k hr
        (hl.0 - hr.0 * (l / r), remainder_divides l r k hl.0 hr.0 hl.1 hr.1))
]

-- `gcd` returns a common divisor that every common divisor divides: its loop ends within the fuel.
pub gcd_lem :
    (a b : ℕ)
    → Divides (gcd a b) a
      × Divides (gcd a b) b
      × ((k : ℕ) → Divides k a → Divides k b → Divides k (gcd a b))
unfolding gcd
gcd_lem a b =
    let both = gcd_loop-Divides b a b (omega arith) in
    (both.0, both.1, λ k ha hb. gcd_loop_greatest b a b k ha hb)

-- What dividing `n` by `p`, as often as it goes, leaves.
pub record Divided (n p : ℕ) (count rest : ℕ) : Type 0 where
  pub factored : n ≡ p ^ count * rest
  pub rest_pos : 0 < rest
  pub none_left : rest % p ≢ 0

quotient_pos : (n p : ℕ) → 0 < n → p * (n / p) ≡ n → 0 < n / p
quotient_pos n p hn e = elim (ℕ-cases (n / p)) [
  | inl none ↦ absurd (let z : p * 0 ≡ n = rw none at e in omega arith)
  | inr some_part ↦ some_part
]

factor_step : (n p m t rest : ℕ) → p * m ≡ n → m ≡ p ^ t * rest → n ≡ p ^ suc t * rest
factor_step n p m t rest e f = rw pow-suc (omega (arith, ap (λ (x : ℕ). x * p) f))

divide_out_from :
    (fuel p c n : ℕ)
    → 1 < p
    → 0 < n
    → n ≤ fuel
    → (t : ℕ) × ((divide_out fuel p c n).0 ≡ c + t) × Divided n p t (divide_out fuel p c n).1
unfolding divide_out
divide_out_from zero p c n hp hn h = absurd (omega arith)
divide_out_from (suc fuel) p c n hp hn h = elim (Bool-cases (n % p == 0)) [
  | inl more ↦ rw more (
      let whole : p * (n / p) ≡ n = ground (arith, div-add-mod n p) in
      let smaller : n / p < n = div-lt_self hn hp in
      let part_pos : 0 < n / p = quotient_pos n p hn whole in
      let (t, e, d) = divide_out_from fuel p (c + 1) (n / p) hp part_pos (omega arith) in
      (
        suc t,
        omega arith,
        record {
          factored = factor_step n p (n / p) t _ whole d.factored;
          rest_pos = d.rest_pos;
          none_left = d.none_left;
        },
      ))
  | inr done ↦ rw done (
    0,
    omega arith,
    record { factored = rw (pow-zero, one-mul); rest_pos = hn; none_left = ground arith },
  )
]

-- The loop stops within the fuel, at a number that the factor does not divide.
pub divide_out_lem :
    (p n : ℕ) → 1 < p → 0 < n → Divided n p (divide_out n p 0 n).0 (divide_out n p 0 n).1
divide_out_lem p n hp hn =
    let (t, e, d) = divide_out_from n p 0 n hp hn (omega arith) in
    let e' : (divide_out n p 0 n).0 ≡ t = omega arith in rw e' d
