-- ===== src/Portfolio/Holdings/Held.antt =====
-- The quantity held, on numbers over a common power of ten: a disposal stops at zero, as the
-- subtraction of natural numbers does.
use nest_backend.Common.{
  ℕ, ◌+◌, ◌-◌, ◌≤◌, ◌≡◌, refl, List, [], ◌∷◌, some, arith, Result, ok, ◌>>=◌, leb, Bool-cases, inl,
  inr,
}
use nest_backend.Common.Int.{pos}
use nest_backend.Common.Text.{Text}
use nest_backend.Decimal.{subtract_decimals}
use nest_backend.Decimal.Value.{Denotes}
use nest_backend.Decimal.Arithmetic.{Returns}
use nest_backend.Decimal.Order.{compare-Denotes}
use nest_backend.Decimal.Scales.{sum_two, subtract_two}
use nest_backend.Portfolio.Types.{
  TransactionType, buy, sell, transfer_in, transfer_out, unsupported, CalculationTransaction,
}
use nest_backend.Portfolio.Holdings.{
  clamp_disposal, apply_quantity, quantity_loop, calculate_quantity,
}

-- A movement of `n` units.
abbrev pub moved : TransactionType → ℕ → ℕ → ℕ
moved buy held n = held + n
moved sell held n = held - n
moved transfer_in held n = held + n
moved transfer_out held n = held - n
moved (unsupported type) held n = held

abbrev pub Movement : Type 0
Movement = TransactionType × ℕ

abbrev pub held_after : List Movement → ℕ → ℕ
held_after [] held = held
held_after ((type, n) ∷ moves) held = held_after moves (moved type held n)

-- Each amount of the ledger is a decimal over `10 ^ k`, which with its type makes a movement.
abbrev pub IsLedger : ℕ → List CalculationTransaction → List Movement → Type 0
IsLedger k [] [] = Unit
IsLedger k [] (move ∷ moves) = ⊥
IsLedger k (transaction ∷ transactions) [] = ⊥
IsLedger k (transaction ∷ transactions) ((type, n) ∷ moves) =
    (transaction.type ≡ type) × Denotes transaction.amount (pos n) k × IsLedger k transactions moves

-- No more is disposed of than is held: the rest of the quantity is not negative.
pub record Clamped (r : Result Text) (held n k : ℕ) : Type 0 where
  pub text : Text
  pub disposed : ℕ
  pub returns : r ≡ ok text
  pub denotes : Denotes text (pos disposed) k
  pub fits : disposed ≤ held
  pub at_most : disposed ≤ n
  pub rest : held - disposed ≡ held - n

pub clamp_disposal-Clamped :
    {q a : Text} {held n k : ℕ}
    → Denotes q (pos held) k
    → Denotes a (pos n) k
    → Clamped (clamp_disposal q a) held n k
unfolding clamp_disposal
clamp_disposal-Clamped {q} {a} {held} {n} {k} h g = elim (Bool-cases (leb n held)) [
  | inl all_of_it ↦ record {
    text = a;
    disposed = n;
    returns = rw (compare-Denotes (pos n) (pos held) k g h) (ground arith);
    denotes = g;
    fits = ground arith;
    at_most = omega arith;
    rest = refl;
  }
  | inr too_much ↦ record {
    text = q;
    disposed = held;
    returns = rw (compare-Denotes (pos n) (pos held) k g h) (ground arith);
    denotes = h;
    fits = omega arith;
    at_most = ground arith;
    rest = ground arith;
  }
]

dispose-Returns :
    {q a : Text} {held n k : ℕ}
    → Denotes q (pos held) k
    → Denotes a (pos n) k
    → Returns (clamp_disposal q a >>= λ disposed. subtract_decimals q disposed) (pos (held - n)) k
dispose-Returns h g =
    let c = clamp_disposal-Clamped h g in
    rw c.returns (rw c.rest at (subtract_two h c.denotes c.fits))

pub apply_quantity-Returns :
    (type : TransactionType) {q a : Text} {held n k : ℕ}
    → Denotes q (pos held) k
    → Denotes a (pos n) k
    → Returns (apply_quantity type q a) (pos (moved type held n)) k
unfolding apply_quantity
apply_quantity-Returns buy h g = sum_two h g
apply_quantity-Returns sell h g = dispose-Returns h g
apply_quantity-Returns transfer_in h g = sum_two h g
apply_quantity-Returns transfer_out h g = dispose-Returns h g
apply_quantity-Returns (unsupported type) {q = q} h g = record {
  text = q;
  returns = refl;
  denotes = h;
}

loop-Returns :
    (k : ℕ) (transactions : List CalculationTransaction) (moves : List Movement) {q : Text}
    {held : ℕ}
    → IsLedger k transactions moves
    → Denotes q (pos held) k
    → Returns (quantity_loop transactions q) (pos (held_after moves held)) k
loop-Returns k [] [] {q} l h = record { text = q; returns = refl; denotes = h }
loop-Returns k [] (m ∷ ms) l h = absurd l
loop-Returns k (t ∷ ts) [] l h = absurd l
loop-Returns k (t ∷ ts) ((type, n) ∷ moves) (e, d, l) h =
    let first = apply_quantity-Returns type h d in
    rw (e, first.returns) (loop-Returns k ts moves l first.denotes)

-- On a ledger whose amounts, and an opening quantity, are decimals that are not negative,
-- HoldingsCalculator.calculateQuantity returns the opening quantity plus the movements, each
-- disposal stopped at zero and unknown types skipped.
pub calculate_quantity-Returns :
    (k : ℕ) (transactions : List CalculationTransaction) (moves : List Movement) {opening : Text}
    {held : ℕ}
    → IsLedger k transactions moves
    → Denotes opening (pos held) k
    → Returns (calculate_quantity transactions (some opening)) (pos (held_after moves held)) k
unfolding calculate_quantity
calculate_quantity-Returns = loop-Returns
