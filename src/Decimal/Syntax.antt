-- ===== src/Decimal/Syntax.antt =====
-- What the parser reads: an integer part, perhaps a fraction, behind a sign.
use nest_backend.Common.{◌≡◌, refl, true, false, [], ◌∷◌, ◌++◌, arith, length, all, ok}
use nest_backend.Common.Text.{Text, is_digit, big_int, split, starts_with}
use nest_backend.Common.Text.Digits.{split_plain, split_point}
use nest_backend.Decimal.{
  Sign, plus, minus, decimal_format, is_digits, matches_rest, matches_unsigned, with_sign,
  with_fraction, parse_decimal, first_part, second_part,
}

matches_rest_digits : (s : Text) → all is_digit s ≡ true → matches_rest s ≡ true
matches_rest_digits [] h = refl
matches_rest_digits (c ∷ s) h = ground (arith, matches_rest_digits s)

matches_rest_point :
    (s t : Text) → all is_digit s ≡ true → is_digits t ≡ true → matches_rest (s ++ b'.' ∷ t) ≡ true
matches_rest_point [] t hs ht = ht
matches_rest_point (c ∷ s) t hs ht = ground (arith, matches_rest_point s t)

matches-with_fraction :
    (s t : Text)
    → is_digits s ≡ true
    → all is_digit t ≡ true
    → matches_unsigned (with_fraction s t) ≡ true
matches-with_fraction [] t hs ht = cc
matches-with_fraction (c ∷ s) [] hs ht = ground (arith, matches_rest_digits s)
matches-with_fraction (c ∷ s) (d ∷ t) hs ht = ground (arith, matches_rest_point s (d ∷ t))

-- A digit in front: the text does not start with a minus sign.
unsigned : (s t : Text) → is_digits s ≡ true → starts_with b'-' (with_fraction s t) ≡ false
unsigned [] t h = cc
unsigned (c ∷ s) [] h = ground arith
unsigned (c ∷ s) (d ∷ t) h = ground arith

split-with_fraction :
    (s t : Text)
    → all is_digit s ≡ true
    → all is_digit t ≡ true
    → (first_part (split b'.' (with_fraction s t)) ≡ s)
      × (second_part (split b'.' (with_fraction s t)) ≡ t)
split-with_fraction s [] hs ht = rw (split_plain s hs) (refl, refl)
split-with_fraction s (d ∷ t) hs ht =
    rw (split_point s (d ∷ t) hs, split_plain (d ∷ t) ht) (refl, refl)

all_of_is_digits : (s : Text) → is_digits s ≡ true → all is_digit s ≡ true
all_of_is_digits s h = ground arith

-- The parser reads a sign, digits and perhaps a fraction as they were written.
pub parse-with_fraction :
    (sign : Sign) (s t : Text)
    → is_digits s ≡ true
    → all is_digit t ≡ true
    → parse_decimal (with_sign sign (with_fraction s t))
      ≡ ok (record { sign = sign; coefficient = big_int (s ++ t); scale = length t })
unfolding parse_decimal decimal_format
parse-with_fraction plus s t hs ht =
    let (first, second) = split-with_fraction s t (all_of_is_digits s hs) ht in
    rw (unsigned s t hs, matches-with_fraction s t hs ht, first, second)
parse-with_fraction minus s t hs ht =
    let (first, second) = split-with_fraction s t (all_of_is_digits s hs) ht in
    rw (matches-with_fraction s t hs ht, first, second)
