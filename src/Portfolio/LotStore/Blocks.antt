-- ===== src/Portfolio/LotStore/Blocks.antt =====
-- What a disposal does to the lots, on numbers: quantities over one power of ten, unit costs over
-- another, in the order of consumption.
use nest_backend.Common.{
  ℕ, ◌+◌, ◌-◌, ◌*◌, ◌≤◌, ◌<◌, ◌≡◌, List, [], ◌∷◌, arith, ltb, ◌==◌, if◌then◌else◌,
}
use nest_backend.Common.Powers.{sub-mul}
use native.Mathlib.Nat.{mul-le-mul_right, le_of_lt}
use nest_backend.Common.Int.{pos}
use nest_backend.Decimal.Value.{Denotes}
use nest_backend.Portfolio.Types.{Lot}

-- A quantity and its unit cost.
abbrev pub Block : Type 0
Block = ℕ × ℕ

abbrev pub units : List Block → ℕ
units [] = 0
units ((q, u) ∷ blocks) = q + units blocks

abbrev pub basis : List Block → ℕ
basis [] = 0
basis ((q, u) ∷ blocks) = q * u + basis blocks

-- The blocks that are left, and the cost of what is taken: whole blocks, then a part of one.
abbrev pub take_units : List Block → ℕ → List Block × ℕ
take_units [] n = ([], 0)
take_units ((q, u) ∷ blocks) n =
    let rest = take_units blocks (n - q) in
    if ltb n q
    then ((q - n, u) ∷ blocks, n * u)
    else if n == q
    then (blocks, q * u)
    else (rest.0, q * u + rest.1)

pub take_units-part :
    (q u n : ℕ) (blocks : List Block)
    → n < q
    → take_units ((q, u) ∷ blocks) n ≡ ((q - n, u) ∷ blocks, n * u)
take_units-part q u n blocks h = ground arith

pub take_units-last :
    (q u n : ℕ) (blocks : List Block) → n ≡ q → take_units ((q, u) ∷ blocks) n ≡ (blocks, q * u)
take_units-last q u n blocks h = ground arith

pub take_units-more :
    (q u n : ℕ) (blocks : List Block)
    → q < n
    → take_units ((q, u) ∷ blocks) n
      ≡ ((take_units blocks (n - q)).0, q * u + (take_units blocks (n - q)).1)
take_units-more q u n blocks h = ground arith

abbrev pub IsBlock : ℕ → ℕ → Lot → Block → Type 0
IsBlock k j lot (q, u) = Denotes lot.quantity (pos q) k × Denotes lot.unit_cost (pos u) j

abbrev pub AllBlocks : ℕ → ℕ → List Lot → List Block → Type 0
AllBlocks k j [] [] = Unit
AllBlocks k j [] (block ∷ blocks) = ⊥
AllBlocks k j (lot ∷ lots) [] = ⊥
AllBlocks k j (lot ∷ lots) (block ∷ blocks) = IsBlock k j lot block × AllBlocks k j lots blocks

-- Taking no more than there is removes exactly that many units.
pub units-take_units :
    (blocks : List Block) (n : ℕ)
    → n ≤ units blocks
    → units (take_units blocks n).0 + n ≡ units blocks
units-take_units [] n h = omega arith
units-take_units ((q, u) ∷ blocks) n h = ground (arith, units-take_units blocks (n - q))

part_cost : (q n u : ℕ) → n < q → (q - n) * u + n * u ≡ q * u
part_cost q n u h = rw (sub-mul q n u) (omega (arith, mul-le-mul_right u (le_of_lt h)))

-- The cost of what is left and the cost of what is taken are the cost there was.
pub basis-take_units :
    (blocks : List Block) (n : ℕ)
    → basis (take_units blocks n).0 + (take_units blocks n).1 ≡ basis blocks
basis-take_units [] n = omega arith
basis-take_units ((q, u) ∷ blocks) n =
    ground (arith, basis-take_units blocks (n - q), part_cost q n u)
