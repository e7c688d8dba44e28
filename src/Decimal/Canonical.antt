-- ===== src/Decimal/Canonical.antt =====
-- A difference is printed in its one canonical form, so that `=== '0'` tests it for zero.
use nest_backend.Common.{
  ℕ, ◌*◌, ◌-◌, ◌^◌, ◌<◌, ◌≡◌, refl, ◌∙◌, [], ◌∷◌, true, inl, inr, Bool-cases, ℕ-cases, Result-cases,
  ok, arith, ◌==◌, if◌then◌else◌, max,
}
use native.Mathlib.Nat.{mul-pos}
use nest_backend.Common.Int.{pos, abs, is_negative, ◌-ℤ◌}
use nest_backend.Common.Powers.{pow_pos}
use nest_backend.Common.Text.{Text, text_eq}
use nest_backend.Decimal.{
  Sign, plus, minus, zero_text, parse_decimal, format_decimal, subtract_decimals, signed,
  coefficient_at,
}
use nest_backend.Decimal.RoundTrip.{format-Reads}
use nest_backend.Decimal.Value.{Denotes, Denotes-unique, parsed-eq}
use nest_backend.Decimal.Laws.{zero_text-Denotes}

text_eq_self : (s : Text) → text_eq s s ≡ true
text_eq_self [] = refl
text_eq_self (c ∷ s) = ground (arith, text_eq_self s)

eq_of_text_eq : (s t : Text) → text_eq s t ≡ true → s ≡ t
eq_of_text_eq [] [] h = refl
eq_of_text_eq [] (d ∷ t) h = cc
eq_of_text_eq (c ∷ s) [] h = cc
eq_of_text_eq (c ∷ s) (d ∷ t) h = ground (arith, eq_of_text_eq s t)

pub record IsPrinted (t : Text) : Type 0 where
  pub coefficient : ℕ
  pub scale : ℕ
  pub sign : Sign
  pub printed : t ≡ format_decimal coefficient scale sign

subtract-IsPrinted : (t u v : Text) → subtract_decimals t u ≡ ok v → IsPrinted v
unfolding subtract_decimals
subtract-IsPrinted t u v h = elim (Result-cases (parse_decimal t)) [
  | inr (fault, e) ↦ ground arith
  | inl (a, e) ↦ elim (Result-cases (parse_decimal u)) [
    | inr (fault, f) ↦ ground arith
    | inl (b, f) ↦
        let scale = max a.scale b.scale in
        let difference =
          signed a.sign (coefficient_at scale a) -ℤ signed b.sign (coefficient_at scale b) in
        record {
          coefficient = abs difference;
          scale = scale;
          sign = if is_negative difference then minus else plus;
          printed = ground arith;
        }
  ]
]

positive_coefficient : (d p c : ℕ) → d * p ≡ c → 0 < c → 0 < d
positive_coefficient d p c e h = elim (ℕ-cases d) [
  | inl none ↦ absurd (let z : 0 * p ≡ c = rw none at e in omega arith)
  | inr some_digits ↦ some_digits
]

format_positive :
    (c s : ℕ) (sign : Sign) (k : ℕ) → 0 < c → Denotes (format_decimal c s sign) (pos 0) k → ⊥
format_positive c s sign k h d =
    let r = format-Reads c s sign in
    let same = parsed-eq (format_decimal c s sign) r.parsed d.parsed r.parses d.parses in
    let counted =
      positive_coefficient r.parsed.coefficient (10 ^ (s - r.parsed.scale)) c r.value_kept h in
    let counted' : 0 < d.parsed.coefficient = rw same at counted in
    let product = mul-pos counted' (pow_pos k) in absurd (omega (arith, d.holds.value))

zero_of_printed : (t : Text) (k : ℕ) → IsPrinted t → Denotes t (pos 0) k → t ≡ zero_text
unfolding format_decimal
zero_of_printed t k p d = elim (ℕ-cases p.coefficient) [
  | inl none ↦ p.printed ∙ ground arith
  | inr some_digits ↦
      absurd (format_positive p.coefficient p.scale p.sign k some_digits (rw p.printed at d))
]

-- A difference that subtractDecimals returns and that is not negative is the text '0' exactly when
-- its value is zero.
pub zero_test :
    (t u v : Text) (n k : ℕ)
    → subtract_decimals t u ≡ ok v
    → Denotes v (pos n) k
    → text_eq v zero_text ≡ (n == 0)
zero_test t u v n k h d = elim (ℕ-cases n) [
  | inl none ↦ rw (zero_of_printed v k (subtract-IsPrinted t u v h) (rw none at d)) (ground arith)
  | inr something ↦ elim (Bool-cases (text_eq v zero_text)) [
    | inl same ↦
        let zero : pos n ≡ pos 0 =
          Denotes-unique v (pos n) (pos 0) k d
            (rw (eq_of_text_eq v zero_text same) (zero_text-Denotes k)) in
        ground arith
    | inr other ↦ rw other (ground arith)
  ]
]
