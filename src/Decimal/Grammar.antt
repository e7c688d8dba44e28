-- ===== src/Decimal/Grammar.antt =====
-- The texts that the parser reads: a minus sign or none, digits, and perhaps a point and more digits.
use mathlib.Core.List.{append-nil}
use nest_backend.Common.{
  ℕ, ◌≡◌, ◌≢◌, refl, sym, ◌∙◌, ap, ◌⊎◌, inl, inr, [], ◌∷◌, ◌++◌, true, false, ◌==◌, all, length, ok,
  err, decimal, invalid_decimal_string, arith, Bool-cases,
}
use nest_backend.Common.Text.{Text, is_digit, big_int}
use nest_backend.Decimal.{
  Sign, plus, minus, ParsedDecimal, parse_decimal, is_decimal_string, decimal_format, is_digits,
  matches_rest, matches_unsigned, with_sign, with_fraction,
}
use nest_backend.Decimal.Syntax.{parse-with_fraction}
use nest_backend.Decimal.Laws.{parse_total}

abbrev pub sign_text : Sign → Text
sign_text plus = []
sign_text minus = b'-' ∷ []

abbrev pub fraction_text : Text → Text
fraction_text [] = []
fraction_text (c ∷ s) = b'.' ∷ c ∷ s

-- `t` is written with this sign, these digits and these decimal places.
pub record Spells (t : Text) (sign : Sign) (integer fraction : Text) : Type 0 where
  pub text : t ≡ sign_text sign ++ (integer ++ fraction_text fraction)
  pub integer_digits : all is_digit integer ≡ true
  pub nonempty : integer ≢ []
  pub fraction_digits : all is_digit fraction ≡ true

-- What the parser returns for such a text.
abbrev pub value_of : Sign → Text → Text → ParsedDecimal
value_of sign integer fraction = record {
  sign = sign;
  coefficient = big_int (integer ++ fraction);
  scale = length fraction;
}

-- Digits in front, and the decimal places behind them.
record Shape (s : Text) : Type 0 where
  integer : Text
  fraction : Text
  text : s ≡ integer ++ fraction_text fraction
  integer_digits : all is_digit integer ≡ true
  fraction_digits : all is_digit fraction ≡ true

after_point : (c : ℕ) (s : Text) → (c == b'.') ≡ true → is_digits s ≡ true → Shape (c ∷ s)
after_point c [] e h = absurd (cc)
after_point c (d ∷ s) e h =
    let point : c ≡ b'.' = ground arith in
    record {
      integer = [];
      fraction = d ∷ s;
      text = ap (λ (x : ℕ). x ∷ d ∷ s) point;
      integer_digits = refl;
      fraction_digits = ground arith;
    }

matches_rest-Shape : (s : Text) → matches_rest s ≡ true → Shape s
matches_rest-Shape [] h = record {
  integer = [];
  fraction = [];
  text = refl;
  integer_digits = refl;
  fraction_digits = refl;
}
matches_rest-Shape (c ∷ s) h = elim (Bool-cases (is_digit c)) [
  | inl digit ↦
      let rest = matches_rest-Shape s (rw digit at h) in
      record {
        integer = c ∷ rest.integer;
        fraction = rest.fraction;
        text = ap (λ (l : Text). c ∷ l) rest.text;
        integer_digits = rw (digit, rest.integer_digits) refl;
        fraction_digits = rest.fraction_digits;
      }
  | inr other ↦ after_point c s (ground arith) (ground arith)
]

unsigned-Spells :
    (sign : Sign) (t s : Text)
    → t ≡ sign_text sign ++ s
    → matches_unsigned s ≡ true
    → (integer : Text) × (fraction : Text) × Spells t sign integer fraction
unsigned-Spells sign t [] e h = absurd (cc)
unsigned-Spells sign t (c ∷ s) e h =
    let shape = matches_rest-Shape s (ground arith) in
    let digit : is_digit c ≡ true = ground arith in
    (
      c ∷ shape.integer,
      shape.fraction,
      record {
        text = e ∙ ap (λ (l : Text). sign_text sign ++ c ∷ l) shape.text;
        integer_digits = rw (digit, shape.integer_digits) refl;
        nonempty = λ empty. cc;
        fraction_digits = shape.fraction_digits;
      },
    )

signed-Spells :
    (t : Text)
    → decimal_format t ≡ true
    → (sign : Sign) × (integer : Text) × (fraction : Text) × Spells t sign integer fraction
unfolding decimal_format
signed-Spells [] h = absurd (cc)
signed-Spells (c ∷ s) h = elim (Bool-cases (c == b'-')) [
  | inl negative ↦
      let same : c ≡ b'-' = ground arith in
      let (integer, fraction, w) =
        unsigned-Spells minus (c ∷ s) s (ap (λ (x : ℕ). x ∷ s) same) (rw negative at h) in
      (minus, integer, fraction, w)
  | inr positive ↦
      let (integer, fraction, w) = unsigned-Spells plus (c ∷ s) (c ∷ s) refl (rw positive at h) in
      (plus, integer, fraction, w)
]

spelled :
    (sign : Sign) (integer fraction : Text)
    → sign_text sign ++ (integer ++ fraction_text fraction)
      ≡ with_sign sign (with_fraction integer fraction)
spelled plus integer [] = append-nil integer
spelled plus integer (c ∷ s) = refl
spelled minus integer [] = ap (λ (l : Text). b'-' ∷ l) (append-nil integer)
spelled minus integer (c ∷ s) = refl

digits_of : (integer : Text) → all is_digit integer ≡ true → integer ≢ [] → is_digits integer ≡ true
digits_of [] h ne = absurd (ne refl)
digits_of (c ∷ s) h ne = h

Spells-parse :
    (t : Text) (sign : Sign) (integer fraction : Text)
    → Spells t sign integer fraction
    → parse_decimal t ≡ ok (value_of sign integer fraction)
Spells-parse t sign integer fraction w =
    ap parse_decimal (w.text ∙ spelled sign integer fraction)
    ∙ parse-with_fraction sign integer fraction (digits_of integer w.integer_digits w.nonempty)
        w.fraction_digits

-- Every text is either written with a minus sign or none, at least one digit, and no decimal
-- places or a point and at least one of them, and then parseDecimal returns that sign, the number
-- of all the digits and the number of decimal places, and isDecimalString accepts it; or it is not
-- written in any such way, and then parseDecimal throws the error for an invalid decimal string
-- and isDecimalString refuses it.
pub parse-Spells :
    (t : Text)
    → ((sign : Sign) × (integer : Text) × (fraction : Text) × Spells t sign integer fraction
        × (parse_decimal t ≡ ok (value_of sign integer fraction))
        × (is_decimal_string t ≡ true))
      ⊎ ((parse_decimal t ≡ err (decimal invalid_decimal_string))
          × (is_decimal_string t ≡ false)
          × ((sign : Sign) (integer fraction : Text) → ¬ Spells t sign integer fraction))
unfolding is_decimal_string
parse-Spells t = elim (parse_total t) [
  | inl (d, parsed, good) ↦
      let (sign, integer, fraction, w) = signed-Spells t good in
      inl (sign, integer, fraction, w, Spells-parse t sign integer fraction w, good)
  | inr (thrown, bad) ↦ inr (
    thrown,
    bad,
    λ sign integer fraction w.
        absurd (let same = sym thrown ∙ Spells-parse t sign integer fraction w in cc),
  )
]
