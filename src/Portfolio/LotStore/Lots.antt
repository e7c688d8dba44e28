-- ===== src/Portfolio/LotStore/Lots.antt =====
-- `consumeLots`: the lots that remain are handed back in the order of acquisition.
use mathlib.Core.List.{reverse, reverse-reverse}
use nest_backend.Common.{
  ℕ, arith, ◌+◌, ◌≤◌, ◌<◌, ◌≡◌, refl, sym, ◌∙◌, ap, List, [], ◌∷◌, ◌++◌, Bool, true, false, Result,
  ok, if◌then◌else◌,
}
use nest_backend.Common.Int.{pos}
use nest_backend.Common.Text.{Text}
use nest_backend.Decimal.Value.{Denotes}
use nest_backend.Portfolio.Types.{Lot}
use nest_backend.Portfolio.LotStore.{
  LotStore, empty_store, push, push_all, to_lots, consume_lots, ConsumeLotsResult,
}
use nest_backend.Portfolio.LotStore.View.{PendingIn, Pending, to_lots-Pending}
use nest_backend.Portfolio.LotStore.Blocks.{
  Block, units, basis, take_units, AllBlocks, units-take_units, basis-take_units,
}
use nest_backend.Portfolio.LotStore.Consume.{consume-Consumed}

-- The order in which disposals take the lots: oldest first, or newest first from the back.
abbrev pub consumption_order : Bool → List Lot → List Lot
consumption_order from_back lots = if from_back then reverse lots else lots

append_nil : (xs : List Lot) → xs ++ [] ≡ xs
append_nil [] = refl
append_nil (x ∷ xs) = ap (λ (l : List Lot). x ∷ l) (append_nil xs)

append_snoc : (xs : List Lot) (x : Lot) (ys : List Lot) → (xs ++ x ∷ []) ++ ys ≡ xs ++ x ∷ ys
append_snoc [] x ys = refl
append_snoc (w ∷ xs) x ys = ap (λ (l : List Lot). w ∷ l) (append_snoc xs x ys)

pub push_all_lem :
    (store : LotStore) (lots : List Lot)
    → push_all store lots ≡ record store { lots = store.lots ++ lots }
unfolding push
push_all_lem store [] = rw (append_nil store.lots) refl
push_all_lem store (lot ∷ lots) =
    push_all_lem (push store lot) lots
    ∙ ap (λ (l : List Lot). record store { lots = l }) (append_snoc store.lots lot lots)

pending_all :
    (from_back : Bool) (lots : List Lot)
    → PendingIn from_back lots 0 (consumption_order from_back lots)
pending_all true lots = (sym (reverse-reverse lots), refl)
pending_all false lots = (refl, omega arith)

-- A store filled with lots has them all pending.
pub push_all-Pending :
    (from_back : Bool) (lots : List Lot)
    → Pending (push_all (empty_store from_back) lots) (consumption_order from_back lots)
push_all-Pending from_back lots =
    rw (push_all_lem (empty_store from_back) lots) (pending_all from_back lots)

pub push_all-from_back :
    (from_back : Bool) (lots : List Lot)
    → (push_all (empty_store from_back) lots).from_back ≡ from_back
push_all-from_back from_back lots = rw (push_all_lem (empty_store from_back) lots) refl

pub order_twice :
    (from_back : Bool) (pending : List Lot)
    → consumption_order from_back (if from_back then reverse pending else pending) ≡ pending
order_twice true pending = reverse-reverse pending
order_twice false pending = refl

-- The lots a disposal leaves, in the order of consumption, and the cost that it releases.
pub record LeavesLots (k j : ℕ) (from_back : Bool) (r : Result ConsumeLotsResult)
    (blocks : List Block) (cost : ℕ) : Type 0 where
  pub result : ConsumeLotsResult
  pub returns : r ≡ ok result
  pub blocks_hold : AllBlocks k j (consumption_order from_back result.remaining_lots) blocks
  pub denotes : Denotes result.released_basis (pos cost) (k + j)

-- For lots whose quantities and unit costs are decimals that are not negative, consumeLots of a
-- positive amount returns; the lots that remain, put in the order of consumption, and the basis
-- released are those of taking that many units lot by lot, from the oldest on or from the newest
-- back.
pub consume_lots-LeavesLots :
    (k j : ℕ) (from_back : Bool) (lots : List Lot) (blocks : List Block) (amount : Text) (n : ℕ)
    → AllBlocks k j (consumption_order from_back lots) blocks
    → Denotes amount (pos n) k
    → 0 < n
    → LeavesLots k j from_back
        (consume_lots lots amount from_back)
        (take_units blocks n).0
        (take_units blocks n).1
unfolding consume_lots
consume_lots-LeavesLots k j from_back lots blocks amount n hold d some_units =
    let c =
      consume-Consumed k j (push_all (empty_store from_back) lots)
        (consumption_order from_back lots) blocks amount n (push_all-Pending from_back lots) hold d
        some_units in
    let same = c.same_end ∙ push_all-from_back from_back lots in
    let handed =
      ap (consumption_order from_back) (rw same at (to_lots-Pending c.store c.pending c.view))
      ∙ order_twice from_back c.pending in
    record {
      result = record { remaining_lots = to_lots c.store; released_basis = c.text };
      returns = rw c.returns refl;
      blocks_hold = rw handed c.blocks_hold;
      denotes = c.denotes;
    }

-- The units and costs of the lots that are left.
pub record Conserves (k j : ℕ) (from_back : Bool) (r : Result ConsumeLotsResult)
    (blocks : List Block) (n : ℕ) : Type 0 where
  pub result : ConsumeLotsResult
  pub left : List Block
  pub cost : ℕ
  pub returns : r ≡ ok result
  pub blocks_hold : AllBlocks k j (consumption_order from_back result.remaining_lots) left
  pub denotes : Denotes result.released_basis (pos cost) (k + j)
  pub units_conserved : units left + n ≡ units blocks
  pub basis_conserved : basis left + cost ≡ basis blocks

-- For lots whose quantities and unit costs are decimals that are not negative, consumeLots of a
-- positive amount that the lots cover returns, from either end; the units of the lots that remain
-- and the amount add up to the units there were, and the cost of the lots that remain and the
-- released basis add up exactly to the cost there was.
pub consume_lots-Conserves :
    (k j : ℕ) (from_back : Bool) (lots : List Lot) (blocks : List Block) (amount : Text) (n : ℕ)
    → AllBlocks k j (consumption_order from_back lots) blocks
    → Denotes amount (pos n) k
    → 0 < n
    → n ≤ units blocks
    → Conserves k j from_back (consume_lots lots amount from_back) blocks n
consume_lots-Conserves k j from_back lots blocks amount n hold d some_units fits =
    let l = consume_lots-LeavesLots k j from_back lots blocks amount n hold d some_units in
    record {
      result = l.result;
      left = (take_units blocks n).0;
      cost = (take_units blocks n).1;
      returns = l.returns;
      blocks_hold = l.blocks_hold;
      denotes = l.denotes;
      units_conserved = units-take_units blocks n fits;
      basis_conserved = basis-take_units blocks n;
    }
