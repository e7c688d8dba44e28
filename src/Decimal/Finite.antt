-- ===== src/Decimal/Finite.antt =====
-- A fraction whose decimal expansion is finite is printed in full, whatever the digit limit.
use native.Mathlib.Nat.{pow-suc}
use nest_backend.Common.{
  ℕ, zero, suc, ◌+◌, ◌*◌, ◌/◌, ◌%◌, ◌^◌, ◌<◌, ◌≡◌, ◌≢◌, ◌⊎◌, inl, inr, refl, ap, ◌∙◌, arith, ◌==◌,
  true,
}
use nest_backend.Common.Powers.{pow_pos, mul_cancel_right}
use nest_backend.Decimal.{gcd, divide_out, expand, quotient}
use nest_backend.Decimal.Quotient.{
  IsQuotient, quotient-IsQuotient, gcd_pos, factor_pos, div_of_multiple,
}
use nest_backend.Decimal.Gcd.{Divides, gcd_lem, Divided, divide_out_lem}

-- No number but 1 divides both.
abbrev Coprime : ℕ → ℕ → Type 0
Coprime a b = (k : ℕ) → Divides k a → Divides k b → k ≡ 1

cancel_factor : (a m h q : ℕ) → 0 < m → a * m ≡ q * (h * m) → Divides h a
cancel_factor a m h q hm e = (q, mul_cancel_right a (q * h) m hm (omega arith))

unit_factor : (g h m : ℕ) → g ≡ h * m → h ≡ 1 → g ≡ m
unit_factor g h m e f = rw f at e ∙ omega arith

-- The common factor of `a * m` and `b * m` is `m`, for coprime `a` and `b`.
gcd-mul : (a b m : ℕ) → Coprime a b → 0 < m → gcd (a * m) (b * m) ≡ m
gcd-mul a b m co hm =
    let (left, right, greatest) = gcd_lem (a * m) (b * m) in
    let (h, e) = greatest m (a, refl) (b, refl) in
    let (u, eu) = left in
    let (v, ev) = right in
    unit_factor (gcd (a * m) (b * m)) h m e
      (co h (cancel_factor a m h u hm (rw e at eu)) (cancel_factor b m h v hm (rw e at ev)))

-- Gauss's lemma.
gauss : (a b m : ℕ) → Coprime a b → 0 < m → Divides b (a * m) → Divides b m
gauss a b m co hm d = rw (gcd-mul a b m co hm) at ((gcd_lem (a * m) (b * m)).2 b d (m, omega arith))

two_of_product : (q k : ℕ) → 2 ≡ q * k → (k ≡ 1) ⊎ (k ≡ 2)
two_of_product zero k e = absurd (omega arith)
two_of_product (suc q) zero e = absurd (omega arith)
two_of_product (suc q) (suc k) e = grind arith

Coprime-two : (b : ℕ) → b % 2 ≢ 0 → Coprime 2 b
Coprime-two b h k (q, e) (v, f) = elim (two_of_product q k e) [
  | inl one ↦ one
  | inr two ↦ absurd (h (rw f (rw two (omega arith))))
]

five_of_product : (q k : ℕ) → 5 ≡ q * k → (k ≡ 1) ⊎ (k ≡ 5)
five_of_product zero k e = absurd (omega arith)
five_of_product (suc q) zero e = absurd (omega arith)
five_of_product (suc q) (suc zero) e = inl refl
five_of_product (suc q) (suc (suc zero)) e = absurd (omega arith)
five_of_product (suc q) (suc (suc (suc zero))) e = absurd (omega arith)
five_of_product (suc q) (suc (suc (suc (suc zero)))) e = absurd (omega arith)
five_of_product (suc q) (suc (suc (suc (suc (suc zero))))) e = inr refl
five_of_product (suc q) (suc (suc (suc (suc (suc (suc k)))))) e =
    absurd (omega (arith, ap (λ (t : ℕ). t + 0) e))

Coprime-five : (b : ℕ) → b % 5 ≢ 0 → Coprime 5 b
Coprime-five b h k (q, e) (v, f) = elim (five_of_product q k e) [
  | inl one ↦ one
  | inr five ↦ absurd (h (rw f (rw five (omega arith))))
]

one_of_product : (q k : ℕ) → 1 ≡ q * k → k ≡ 1
one_of_product zero k e = absurd (omega arith)
one_of_product (suc q) zero e = absurd (omega arith)
one_of_product (suc q) (suc k) e = grind arith

-- A divisor of a power of ten that neither two nor five divides is 1.
rest_one : (b k : ℕ) → b % 2 ≢ 0 → b % 5 ≢ 0 → Divides b (10 ^ k) → b ≡ 1
rest_one b zero h2 h5 (q, e) = one_of_product q b e
rest_one b (suc k) h2 h5 (q, e) =
    let split : 2 * (5 * 10 ^ k) ≡ q * b = omega (arith, e, pow-suc 10 k) in
    let half = gauss 2 b (5 * 10 ^ k) (Coprime-two b h2) (omega (arith, pow_pos k)) (q, split) in
    rest_one b k h2 h5 (gauss 5 b (10 ^ k) (Coprime-five b h5) (pow_pos k) half)

-- A fraction has a finite expansion if some power of ten makes it whole.
abbrev pub IsFinite : ℕ → ℕ → Type 0
IsFinite numerator denominator = (k : ℕ) × Divides denominator (numerator * 10 ^ k)

even_multiple : (o a b : ℕ) → o ≡ a * b → b % 2 ≡ 0 → o % 2 ≡ 0
even_multiple o a b e h =
    let half : b ≡ 2 * (b / 2) = omega arith in
    let twice : o ≡ 2 * (a * (b / 2)) = omega (arith, ap (λ (t : ℕ). a * t) half) in omega arith

multiple_chain : (m q d t o f r : ℕ) → m ≡ q * d → d ≡ t * o → o ≡ f * r → m ≡ q * t * f * r
multiple_chain m q d t o f r e g h = rw (e, g, h) (omega arith)

module _ (d : ℕ) (hd : 0 < d) where
  abbrev twos : ℕ
  twos = (divide_out d 2 0 d).0

  abbrev odd : ℕ
  odd = (divide_out d 2 0 d).1

  abbrev fives : ℕ
  fives = (divide_out odd 5 0 odd).0

  abbrev rest : ℕ
  rest = (divide_out odd 5 0 odd).1

  by_two : Divided d 2 twos odd
  by_two = divide_out_lem 2 d (omega arith) hd

  by_five : Divided odd 5 fives rest
  by_five = divide_out_lem 5 odd (omega arith) by_two.rest_pos

  -- What is left of the denominator is odd, since the twos came out first.
  rest_odd : rest % 2 ≢ 0
  rest_odd h = by_two.none_left (even_multiple odd (5 ^ fives) rest by_five.factored h)

  rest-Divides : (m : ℕ) → Divides d m → Divides rest m
  rest-Divides m (q, e) = (
    q * 2 ^ twos * 5 ^ fives,
    multiple_chain m q d (2 ^ twos) odd (5 ^ fives) rest e by_two.factored by_five.factored,
  )

  -- With a finite expansion in lowest terms nothing is left, and the limit is not used.
  expand_any : (n a b : ℕ) → Coprime n d → IsFinite n d → expand n d a ≡ expand n d b
  unfolding expand
  expand_any n a b co (k, whole) =
      let one : rest ≡ 1 =
        rest_one rest k rest_odd by_five.none_left
          (rest-Divides (10 ^ k) (gauss n d (10 ^ k) co (pow_pos k) whole)) in
      let test : (rest == 1) ≡ true = ground arith in rw test

multiple_step : (m n k u g : ℕ) → m ≡ n * g → n ≡ u * k → m ≡ u * (k * g)
multiple_step m n k u g e f = rw (e, f) (omega arith)

same_lowest :
    (n d n' d' a b : ℕ)
    → n' ≡ n
    → d' ≡ d
    → expand n d a ≡ expand n d b
    → expand n' d' a ≡ expand n' d' b
same_lowest n d n' d' a b en ed h = rw (en, ed) h

exact_of :
    (q r : ℕ × ℕ) (num den limit : ℕ)
    → q ≡ r
    → limit ≡ suc q.1
    → IsQuotient num den limit r.0 r.1
    → q.0 * den ≡ num * 10 ^ q.1
exact_of q r num den limit e f h = elim h.cut_off [
  | inl at_limit ↦ absurd (let same : q.1 ≡ r.1 = ap (λ (p : ℕ × ℕ). p.1) e in omega arith)
  | inr exact ↦ rw e exact
]

lowest-Coprime :
    (num den n d : ℕ)
    → 0 < gcd num den
    → num ≡ n * gcd num den
    → den ≡ d * gcd num den
    → Coprime n d
lowest-Coprime num den n d hg en ed k (u, eu) (v, ev) =
    let g = gcd num den in
    let (w, e) =
      (gcd_lem num den).2 (k * g) (u, multiple_step num n k u g en eu)
        (v, multiple_step den d k v g ed ev) in
    one_of_product w k (mul_cancel_right 1 (w * k) g hg (omega arith))

lowest-IsFinite :
    (num den n d g : ℕ) → 0 < g → num ≡ n * g → den ≡ d * g → IsFinite num den → IsFinite n d
lowest-IsFinite num den n d g hg en ed (k, (q, e)) = (
  k,
  (
    q,
    mul_cancel_right (n * 10 ^ k) (q * d) g hg
        (omega (arith, e, ap (λ (t : ℕ). t * 10 ^ k) en, ap (λ (t : ℕ). q * t) ed)),
  ),
)

-- The digit limit makes no difference to a quotient with a finite expansion.
pub quotient_any :
    (num den a b : ℕ) → 0 < den → IsFinite num den → quotient num den a ≡ quotient num den b
unfolding quotient
quotient_any num den a b h finite =
    let g = gcd num den in
    let g_pos = gcd_pos num den h in
    let (n, en) = (gcd_lem num den).0 in
    let (d, ed) = (gcd_lem num den).1 in
    same_lowest n d (num / g) (den / g) a b (div_of_multiple num g n g_pos en)
      (div_of_multiple den g d g_pos ed)
      (expand_any d (factor_pos d g den h ed) n a b (lowest-Coprime num den n d g_pos en ed)
        (lowest-IsFinite num den n d g g_pos en ed finite))

-- A finite expansion is printed in full.
pub quotient_exact :
    (num den max_digits : ℕ)
    → 0 < den
    → IsFinite num den
    → let (c, s) = quotient num den max_digits in c * den ≡ num * 10 ^ s
quotient_exact num den max_digits h finite =
    let larger = suc (quotient num den max_digits).1 in
    let same = quotient_any num den max_digits larger h finite in
    exact_of (quotient num den max_digits) (quotient num den larger) num den larger same refl
      (quotient-IsQuotient num den larger h)
