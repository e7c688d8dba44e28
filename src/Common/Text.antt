-- ===== src/Common/Text.antt =====
-- Strings as lists of code units, with the JavaScript built-ins that the source calls on them:
-- `BigInt(s)`, `n.toString()`, `padStart`, `split` and `startsWith`.
pub mod Digits
pub mod Order
use Prim.Native.Char.{code}
use Prim.Native.String.{String}
use nest_backend.Common.Lists.{length, replicate, all}
use nest_backend.Common.Tests.{leb, ltb, ◌==◌, if◌then◌else◌}
use Prim.Native.Nat.{ℕ, zero, suc, ◌+◌, ◌-◌, ◌*◌, ◌/◌, ◌%◌}
use mathlib.Core.Bool.{Bool, true, false, ◌&&◌, ◌||◌}
use mathlib.Core.List.{List, [], ◌∷◌, ◌++◌}

abbrev pub Text : Type 0
Text = List ℕ

-- The code units of a literal.
abbrev pub codes : String → Text
codes String.[] = []
codes (String.◌∷◌ c s) = code c ∷ codes s

-- `\d`
abbrev pub is_digit : ℕ → Bool
is_digit c = leb b'0' c && leb c b'9'

-- The number that digits spell behind `n`; `BigInt` of a text of digits starts from 0.
abbrev pub read_digits : ℕ → Text → ℕ
read_digits n [] = n
read_digits n (c ∷ s) = read_digits (n * 10 + (c - b'0')) s

abbrev pub big_int : Text → ℕ
big_int s = read_digits 0 s

-- The digits of `n` in front of `out`; `n` rounds are enough.
unfoldable pub emit : ℕ → ℕ → Text → Text
emit zero n out = out
emit (suc f) n out =
    let rest = emit f (n / 10) ((b'0' + n % 10) ∷ out) in if n == 0 then out else rest

-- `n.toString()`
unfoldable pub to_string : ℕ → Text
unfolding emit
to_string n = if n == 0 then b'0' ∷ [] else emit n n []

-- `s.padStart(k, '0')`
abbrev pub pad_start : ℕ → Text → Text
pad_start k s = replicate (k - length s) b'0' ++ s

-- `s.split(sep)`, for a separator of one character.
abbrev pub add_to_first : ℕ → List Text → List Text
add_to_first c [] = (c ∷ []) ∷ []
add_to_first c (p ∷ ps) = (c ∷ p) ∷ ps

abbrev pub split : ℕ → Text → List Text
split sep [] = [] ∷ []
split sep (c ∷ s) = if c == sep then [] ∷ split sep s else add_to_first c (split sep s)

-- `s.startsWith(c)`, for one character.
abbrev pub starts_with : ℕ → Text → Bool
starts_with c [] = false
starts_with c (d ∷ s) = d == c

-- Equality of strings.
abbrev pub text_eq : Text → Text → Bool
text_eq [] [] = true
text_eq [] (d ∷ t) = false
text_eq (c ∷ s) [] = false
text_eq (c ∷ s) (d ∷ t) = c == d && text_eq s t

-- `s < t` for strings: by code units.
abbrev pub text_ltb : Text → Text → Bool
text_ltb [] [] = false
text_ltb [] (d ∷ t) = true
text_ltb (c ∷ s) [] = false
text_ltb (c ∷ s) (d ∷ t) = ltb c d || (c == d && text_ltb s t)
