-- ===== src/Decimal/Value.antt =====
-- The number that a decimal text stands for: an integer over a power of ten.
use nest_backend.Common.{
  ℕ, ◌-◌, ◌*◌, ◌^◌, ◌≤◌, ◌<◌, ◌≡◌, sym, ap, ◌∙◌, arith, ◌==◌, if◌then◌else◌, ok,
}
use nest_backend.Common.Int.{ℤ, pos, negsuc, abs, is_negative}
use nest_backend.Common.Powers.{pow_pos, pow_split, mul_cancel_right}
use nest_backend.Common.Text.{Text}
use nest_backend.Decimal.{
  Sign, plus, minus, ParsedDecimal, parse_decimal, format_decimal, coefficient_at,
}
use nest_backend.Decimal.RoundTrip.{Reads, format-Reads}

abbrev pub sign_of : ℤ → Sign
sign_of (pos n) = plus
sign_of (negsuc n) = minus

-- A parsed decimal is `z / 10 ^ k`; a zero carries no minus sign.
pub record Holds (d : ParsedDecimal) (z : ℤ) (k : ℕ) : Type 0 where
  pub signed_as : d.sign ≡ sign_of z
  pub value : d.coefficient * 10 ^ k ≡ abs z * 10 ^ d.scale

-- The text parses, and is `z / 10 ^ k`.
pub record Denotes (text : Text) (z : ℤ) (k : ℕ) : Type 0 where
  pub parsed : ParsedDecimal
  pub parses : parse_decimal text ≡ ok parsed
  pub holds : Holds parsed z k

cross_cancel : (c m n p q r : ℕ) → 0 < p → c * p ≡ m * r → m * q ≡ n * p → c * q ≡ n * r
cross_cancel c m n p q r h e f =
    mul_cancel_right (c * q) (n * r) p h
      (omega (arith, ap (λ (t : ℕ). t * q) e, ap (λ (t : ℕ). t * r) f))

cross_split : (c m p q r t : ℕ) → c * p ≡ m * q → r ≡ q * t → c * t * p ≡ m * r
cross_split c m p q r t e f = rw f (omega (arith, ap (λ (u : ℕ). u * t) e))

-- The coefficient at a larger scale `s` is the value times `10 ^ s`.
pub coefficient_at_lem :
    {d : ParsedDecimal} {z : ℤ} {k : ℕ} (s : ℕ)
    → Holds d z k
    → d.scale ≤ s
    → coefficient_at s d * 10 ^ k ≡ abs z * 10 ^ s
coefficient_at_lem {d} {z} {k} s h le =
    cross_split d.coefficient (abs z) (10 ^ k) (10 ^ d.scale) (10 ^ s) (10 ^ (s - d.scale)) h.value
      (pow_split d.scale s le)

-- The same number over another power of ten.
pub Denotes-rescale :
    {t : Text} {z : ℤ} (j : ℕ) (w : ℤ) (k : ℕ)
    → Denotes t z j
    → sign_of z ≡ sign_of w
    → abs z * 10 ^ k ≡ abs w * 10 ^ j
    → Denotes t w k
Denotes-rescale {t} {z} j w k h s e = record {
  parsed = h.parsed;
  parses = h.parses;
  holds = record {
    signed_as = h.holds.signed_as ∙ s;
    value =
        cross_cancel h.parsed.coefficient (abs z) (abs w) (10 ^ j) (10 ^ k) (10 ^ h.parsed.scale)
          (pow_pos j) h.holds.value e;
  };
}

sign-print :
    (z : ℤ) → (if abs z == 0 then plus else (if is_negative z then minus else plus)) ≡ sign_of z
sign-print (pos n) = ground arith
sign-print (negsuc n) = ground arith

pub Reads-Denotes : {t : Text} (z : ℤ) (k : ℕ) → Reads t (sign_of z) (abs z) k → Denotes t z k
Reads-Denotes z k r = record {
  parsed = r.parsed;
  parses = r.parses;
  holds = record {
    signed_as = r.sign_kept;
    value =
        rw (pow_split r.parsed.scale k r.scale_le)
          (omega (arith, ap (λ (u : ℕ). u * 10 ^ r.parsed.scale) r.value_kept));
  };
}

-- What formatDecimal prints for an integer over a power of ten parses again and denotes that
-- number.
pub format-Denotes :
    (z : ℤ) (k : ℕ) → Denotes (format_decimal (abs z) k (if is_negative z then minus else plus)) z k
format-Denotes z k =
    Reads-Denotes z k
      (rw (sign-print z) at (format-Reads (abs z) k (if is_negative z then minus else plus)))

sign-abs : (z w : ℤ) → sign_of z ≡ sign_of w → abs z ≡ abs w → z ≡ w
sign-abs (pos m) (pos n) s e = cc
sign-abs (pos m) (negsuc n) s e = cc
sign-abs (negsuc m) (pos n) s e = cc
sign-abs (negsuc m) (negsuc n) s e = ground arith

pub parsed-eq :
    (t : Text) (d e : ParsedDecimal) → parse_decimal t ≡ ok d → parse_decimal t ≡ ok e → d ≡ e
parsed-eq t d e p q = cc

Holds-unique : (d : ParsedDecimal) (z w : ℤ) (k : ℕ) → Holds d z k → Holds d w k → z ≡ w
Holds-unique d z w k h g =
    sign-abs z w (sym h.signed_as ∙ g.signed_as)
      (mul_cancel_right (abs z) (abs w) (10 ^ d.scale) (pow_pos d.scale) (sym h.value ∙ g.value))

-- A text denotes at most one number.
pub Denotes-unique : (t : Text) (z w : ℤ) (k : ℕ) → Denotes t z k → Denotes t w k → z ≡ w
Denotes-unique t z w k h g =
    Holds-unique h.parsed z w k h.holds
      (rw (parsed-eq t g.parsed h.parsed g.parses h.parses) at g.holds)
