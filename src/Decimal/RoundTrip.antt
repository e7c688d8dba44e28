-- ===== src/Decimal/RoundTrip.antt =====
-- What `formatDecimal` prints is read back with the same value, in its shortest form.
use mathlib.Core.List.{append-nil}
use native.Mathlib.Nat.{pow-suc, sub-zero, suc-sub-suc}
use nest_backend.Common.{
  ℕ, zero, suc, ◌+◌, ◌-◌, ◌*◌, ◌%◌, ◌^◌, ◌≤◌, ◌<◌, ◌≡◌, refl, sym, ◌∙◌, ◌≢◌, ◌⊎◌, inl, inr, true,
  [], ◌∷◌, ◌++◌, arith, ◌==◌, if◌then◌else◌, length, take, drop, all, ok, Bool-cases,
  take-append-drop, length-take, length-drop,
}
use nest_backend.Common.Text.{Text, is_digit, big_int, read_digits, to_string, pad_start}
use nest_backend.Common.Text.Digits.{
  read_digits-append, big_int-to_string, all_digits-to_string, all_digits-pad_start,
  big_int-pad_start, length-pad_start,
}
use nest_backend.Decimal.{
  Sign, plus, ParsedDecimal, is_digits, with_sign, with_fraction, drop_zero, strip_zeros,
  parse_decimal, decimal_format, print_nonzero, format_decimal,
}
use nest_backend.Decimal.Syntax.{parse-with_fraction}

length-strip_zeros : (s : Text) → length (strip_zeros s) ≤ length s
length-strip_zeros [] = omega arith
length-strip_zeros (c ∷ s) = ground (arith, length-strip_zeros s)

all-strip_zeros : (s : Text) → all is_digit s ≡ true → all is_digit (strip_zeros s) ≡ true
all-strip_zeros [] h = refl
all-strip_zeros (c ∷ s) h = ground (arith, all-strip_zeros s)

-- Dropping one digit in front of what is left of the rest.
read-drop_zero :
    (n c l : ℕ) (r : Text)
    → read_digits (n * 10 + (c - b'0')) r * 10 ^ (l - length r)
      ≡ read_digits n (drop_zero c r) * 10 ^ (suc l - length (drop_zero c r))
read-drop_zero n c l [] = elim (Bool-cases (c == b'0')) [
  | inl zero_digit ↦ rw (zero_digit, sub-zero, sub-zero, pow-suc) (ground arith)
  | inr digit ↦ rw (digit, suc-sub-suc)
]
read-drop_zero n c l (d ∷ r) = elim (Bool-cases (c == b'0')) [
  | inl zero_digit ↦ rw (zero_digit, suc-sub-suc)
  | inr digit ↦ rw (digit, suc-sub-suc)
]

-- Each dropped zero is a factor of ten.
read-strip_zeros :
    (n : ℕ) (s : Text)
    → read_digits n s ≡ read_digits n (strip_zeros s) * 10 ^ (length s - length (strip_zeros s))
read-strip_zeros n [] = omega arith
read-strip_zeros n (c ∷ s) =
    read-strip_zeros (n * 10 + (c - b'0')) s ∙ read-drop_zero n c (length s) (strip_zeros s)

drop_zero_shortest :
    (n c : ℕ) (r : Text)
    → is_digit c ≡ true
    → (r ≡ []) ⊎ (read_digits (n * 10 + (c - b'0')) r % 10 ≢ 0)
    → (drop_zero c r ≡ []) ⊎ (read_digits n (drop_zero c r) % 10 ≢ 0)
drop_zero_shortest n c [] h ih = ground arith
drop_zero_shortest n c (d ∷ r) h (inl e) = cc
drop_zero_shortest n c (d ∷ r) h (inr e) = ground arith

-- What is left ends in no zero.
strip_zeros_shortest :
    (n : ℕ) (s : Text)
    → all is_digit s ≡ true
    → (strip_zeros s ≡ []) ⊎ (read_digits n (strip_zeros s) % 10 ≢ 0)
strip_zeros_shortest n [] h = inl refl
strip_zeros_shortest n (c ∷ s) h =
    drop_zero_shortest n c (strip_zeros s) (ground arith)
      (strip_zeros_shortest (n * 10 + (c - b'0')) s (ground arith))

all-take : (k : ℕ) (s : Text) → all is_digit s ≡ true → all is_digit (take k s) ≡ true
all-take zero s h = refl
all-take (suc k) [] h = refl
all-take (suc k) (c ∷ s) h = ground (arith, all-take k s)

all-drop : (k : ℕ) (s : Text) → all is_digit s ≡ true → all is_digit (drop k s) ≡ true
all-drop zero s h = h
all-drop (suc k) [] h = refl
all-drop (suc k) (c ∷ s) h = ground (arith, all-drop k s)

-- The text is read as the value `coefficient / 10 ^ scale` with this sign, in its shortest form.
pub record Reads (text : Text) (sign : Sign) (coefficient scale : ℕ) : Type 0 where
  pub parsed : ParsedDecimal
  pub parses : parse_decimal text ≡ ok parsed
  pub sign_kept : parsed.sign ≡ sign
  pub scale_le : parsed.scale ≤ scale
  pub value_kept : parsed.coefficient * 10 ^ (scale - parsed.scale) ≡ coefficient
  pub shortest : (parsed.scale ≡ 0) ⊎ (parsed.coefficient % 10 ≢ 0)

not-zero_of_digits : (s : Text) → all is_digit s ≡ true → 0 < length s → is_digits s ≡ true
not-zero_of_digits [] h p = absurd (omega arith)
not-zero_of_digits (c ∷ s) h p = h

is_digits_of_pos : (s : Text) → all is_digit s ≡ true → 0 < big_int s → is_digits s ≡ true
is_digits_of_pos [] h p = absurd (omega arith)
is_digits_of_pos (c ∷ s) h p = h

length-nil : (s : Text) → s ≡ [] → length s ≡ 0
length-nil s e = rw e

-- An integer part and the rest of the fraction, read together.
parts-Reads :
    (sign : Sign) (integer fraction : Text)
    → is_digits integer ≡ true
    → all is_digit fraction ≡ true
    → Reads
        (with_sign sign (with_fraction integer (strip_zeros fraction)))
        sign
        (big_int (integer ++ fraction))
        (length fraction)
parts-Reads sign integer fraction hi hf = record {
  parsed = record {
    sign = sign;
    coefficient = big_int (integer ++ strip_zeros fraction);
    scale = length (strip_zeros fraction);
  };
  parses = parse-with_fraction sign integer (strip_zeros fraction) hi (all-strip_zeros fraction hf);
  sign_kept = refl;
  scale_le = length-strip_zeros fraction;
  value_kept =
      rw
        (read_digits-append 0 integer fraction, read_digits-append 0 integer (strip_zeros fraction))
        (sym (read-strip_zeros (big_int integer) fraction));
  shortest = elim (strip_zeros_shortest (big_int integer) fraction hf) [
    | inl gone ↦ inl (length-nil (strip_zeros fraction) gone)
    | inr last ↦ inr (rw (read_digits-append 0 integer (strip_zeros fraction)) last)
  ];
}

-- A text of digits, cut so that `scale` of them stand behind the point.
cut-Reads :
    (sign : Sign) (digits : Text) (scale : ℕ)
    → all is_digit digits ≡ true
    → scale < length digits
    → let k = length digits - scale in
      Reads
        (with_sign sign (with_fraction (take k digits) (strip_zeros (drop k digits))))
        sign
        (big_int digits)
        scale
cut-Reads sign digits scale h lt =
    let k = length digits - scale in
    let whole = take-append-drop k digits in
    let behind : length (drop k digits) ≡ scale = omega (arith, length-drop k digits) in
    let front : 0 < length (take k digits) = omega (arith, length-take k digits) in
    rw whole at (
      rw behind at (
        parts-Reads sign (take k digits) (drop k digits)
          (not-zero_of_digits (take k digits) (all-take k digits h) front) (all-drop k digits h)))

zero-Reads : (scale : ℕ) → Reads (b'0' ∷ []) plus 0 scale
unfolding parse_decimal decimal_format
zero-Reads scale = record {
  parsed = record { sign = plus; coefficient = 0; scale = 0 };
  parses = refl;
  sign_kept = refl;
  scale_le = omega arith;
  value_kept = omega arith;
  shortest = inl refl;
}

integer-Reads :
    (sign : Sign) (coefficient : ℕ)
    → 0 < coefficient
    → Reads (with_sign sign (to_string coefficient)) sign coefficient 0
integer-Reads sign coefficient p =
    let value = big_int-to_string coefficient in
    let digits = all_digits-to_string coefficient in
    rw (append-nil (to_string coefficient), value) at
      (parts-Reads sign (to_string coefficient) []
        (is_digits_of_pos (to_string coefficient) digits (rw value p)) refl)

nonzero-Reads :
    (coefficient scale : ℕ) (sign : Sign)
    → 0 < coefficient
    → Reads (print_nonzero coefficient scale sign) sign coefficient scale
unfolding print_nonzero
nonzero-Reads coefficient scale sign p =
    let digits = pad_start (scale + 1) (to_string coefficient) in
    let same : big_int digits ≡ coefficient =
      big_int-pad_start (scale + 1) (to_string coefficient) ∙ big_int-to_string coefficient in
    elim (Bool-cases (scale == 0)) [
      | inl whole ↦ let e : scale ≡ 0 = ground arith in rw e (integer-Reads sign coefficient p)
      | inr some_digits ↦ rw some_digits (
          rw same at (
            cut-Reads sign digits scale
              (all_digits-pad_start (scale + 1) (to_string coefficient)
                (all_digits-to_string coefficient))
              (omega (arith, length-pad_start (scale + 1) (to_string coefficient)))))
    ]

-- Every print is read back: the sign (a zero has none), the value, and no superfluous zero.
pub format-Reads :
    (coefficient scale : ℕ) (sign : Sign)
    → Reads
        (format_decimal coefficient scale sign)
        (if coefficient == 0 then plus else sign)
        coefficient
        scale
unfolding format_decimal
format-Reads coefficient scale sign = elim (Bool-cases (coefficient == 0)) [
  | inl is_zero ↦ let e : coefficient ≡ 0 = ground arith in rw e (zero-Reads scale)
  | inr positive ↦ rw positive (nonzero-Reads coefficient scale sign (ground arith))
]
