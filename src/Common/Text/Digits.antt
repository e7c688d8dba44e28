-- ===== src/Common/Text/Digits.antt =====
-- Decimal digits: what is printed reads back, and how padding and cutting change the value.
use Prim.Native.Nat.{ℕ, zero, suc, ◌+◌, ◌-◌, ◌*◌, ◌/◌, ◌%◌, ◌^◌, ◌≤◌}
use mathlib.Core.Path.{◌≡◌, refl}
use mathlib.Core.Bool.{true}
use mathlib.Core.List.{[], ◌∷◌, ◌++◌}
use native.Mathlib.Nat.{pow-zero, pow-suc, mul-one}
use native.Mathlib.Omega.{arith}
use nest_backend.Common.Lists.{length, length-append, length-replicate, replicate, all}
use nest_backend.Common.Text.{
  Text, is_digit, read_digits, big_int, emit, to_string, pad_start, split,
}

pub read_digits-append :
    (n : ℕ) (s t : Text) → read_digits n (s ++ t) ≡ read_digits (read_digits n s) t
read_digits-append n [] t = refl
read_digits-append n (c ∷ s) t = read_digits-append (n * 10 + (c - b'0')) s t

scale_step : (n d p r : ℕ) → (n * 10 + d) * p + r ≡ n * (p * 10) + ((0 * 10 + d) * p + r)
scale_step n d p r = omega arith

-- A number in front of `s` counts `10 ^ length s` times.
pub read_digits_scale : (n : ℕ) (s : Text) → read_digits n s ≡ n * 10 ^ length s + read_digits 0 s
read_digits_scale n [] = rw (pow-zero, mul-one) (omega arith)
read_digits_scale n (c ∷ s) =
    let d = c - b'0' in
    rw (read_digits_scale (n * 10 + d) s, read_digits_scale (0 * 10 + d) s, pow-suc 10 (length s))
      (scale_step n d (10 ^ length s) (read_digits 0 s))

read-emit : (f n : ℕ) (out : Text) → n ≤ f → read_digits 0 (emit f n out) ≡ read_digits n out
unfolding emit
read-emit zero n out h = ground arith
read-emit (suc f) n out h = ground (arith, read-emit f (n / 10) ((b'0' + n % 10) ∷ out))

-- `BigInt(n.toString())` is `n`.
pub big_int-to_string : (n : ℕ) → big_int (to_string n) ≡ n
unfolding to_string
big_int-to_string n = ground (arith, read-emit n n [])

all-emit : (f n : ℕ) (out : Text) → all is_digit out ≡ true → all is_digit (emit f n out) ≡ true
unfolding emit
all-emit zero n out h = h
all-emit (suc f) n out h = ground (arith, all-emit f (n / 10) ((b'0' + n % 10) ∷ out))

pub all_digits-to_string : (n : ℕ) → all is_digit (to_string n) ≡ true
unfolding to_string
all_digits-to_string n = ground (arith, all-emit n n [])

pub all-append :
    (s t : Text) → all is_digit s ≡ true → all is_digit t ≡ true → all is_digit (s ++ t) ≡ true
all-append [] t hs ht = ht
all-append (c ∷ s) t hs ht = ground (arith, all-append s t)

all-replicate : (k : ℕ) → all is_digit (replicate k b'0') ≡ true
all-replicate zero = refl
all-replicate (suc k) = all-replicate k

pub all_digits-pad_start :
    (k : ℕ) (s : Text) → all is_digit s ≡ true → all is_digit (pad_start k s) ≡ true
all_digits-pad_start k s h =
    all-append (replicate (k - length s) b'0') s (all-replicate (k - length s)) h

read-replicate : (k : ℕ) (s : Text) → read_digits 0 (replicate k b'0' ++ s) ≡ read_digits 0 s
read-replicate zero s = refl
read-replicate (suc k) s = read-replicate k s

pub big_int-pad_start : (k : ℕ) (s : Text) → big_int (pad_start k s) ≡ big_int s
big_int-pad_start k s = read-replicate (k - length s) s

pub length-pad_start : (k : ℕ) (s : Text) → k ≤ length (pad_start k s)
length-pad_start k s = omega (
  arith,
  length-append (replicate (k - length s) b'0') s,
  length-replicate {A = ℕ} (k - length s) b'0',
)

-- A text without the separator is one part, and what follows a separator is split on its own.
pub split_plain : (s : Text) → all is_digit s ≡ true → split b'.' s ≡ s ∷ []
split_plain [] h = refl
split_plain (c ∷ s) h = ground (arith, split_plain s)

pub split_point :
    (s t : Text) → all is_digit s ≡ true → split b'.' (s ++ b'.' ∷ t) ≡ s ∷ split b'.' t
split_point [] t h = refl
split_point (c ∷ s) t h = ground (arith, split_point s t)
