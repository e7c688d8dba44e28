-- ===== src/Portfolio/LotCostBasis/Ledger.antt =====
-- The loop and the whole calculation of the FIFO and LIFO strategies.
use nest_backend.Common.{
  ℕ, ◌<◌, ◌≡◌, refl, ◌∙◌, ap, List, [], ◌∷◌, Option, none, some, Bool, true, false, Result, ok, ◌+◌,
}
use nest_backend.Common.Int.{pos}
use nest_backend.Common.Text.{Text}
use nest_backend.Decimal.Value.{Denotes}
use nest_backend.Decimal.Laws.{zero_text-Denotes}
use nest_backend.Decimal.Order.{compare-Denotes}
use nest_backend.Portfolio.Types.{
  TransactionType, buy, sell, transfer_in, transfer_out, unsupported, CalculationTransaction, Lot,
  CostBasisOpeningState, CostBasisResult,
}
use nest_backend.Portfolio.Validation.{assert_supported_type}
use nest_backend.Portfolio.Validation.Laws.{
  IsFee, assert_fee_lem, assert_positive_amount_lem, assert_opening_quantity_lem,
  assert_opening_cost_lem,
}
use nest_backend.Portfolio.LotStore.{LotStore, empty_store, push_all, to_lots}
use nest_backend.Portfolio.LotStore.View.{to_lots-Pending}
use nest_backend.Portfolio.LotStore.Lots.{
  consumption_order, push_all-Pending, push_all-from_back, order_twice,
}
use nest_backend.Portfolio.LotStore.Blocks.{Block, units, basis, AllBlocks}
use nest_backend.Portfolio.LotCostBasis.{
  Queue, open_averaged, open_lots, lots_step, lots_loop, calculate_lots,
}
use nest_backend.Portfolio.LotCostBasis.Replay.{
  replayed, Fits, IsPricedAt, QueueHolds, QueueReturns, apply_lots-QueueReturns,
}

-- The type of a movement, its units and its price.
abbrev pub Trade : Type 0
Trade = TransactionType × (ℕ × ℕ)

-- A transaction of `n / 10 ^ k` units at `p / 10 ^ j` that the guards let pass.
pub record IsTrade (k j : ℕ) (transaction : CalculationTransaction) (n p : ℕ) : Type 0 where
  pub amount_denotes : Denotes transaction.amount (pos n) k
  pub amount_positive : 0 < n
  pub priced : IsPricedAt j transaction.type transaction.price p
  pub fee_valid : IsFee transaction.fee

-- The ledger's transactions make these trades, and each disposal finds enough units.
abbrev pub AllTrades : ℕ → ℕ → Bool → List CalculationTransaction → List Trade → List Block → Type 0
AllTrades k j from_back [] [] blocks = Unit
AllTrades k j from_back [] (trade ∷ trades) blocks = ⊥
AllTrades k j from_back (transaction ∷ transactions) [] blocks = ⊥
AllTrades k j from_back (transaction ∷ transactions) ((type, (n, p)) ∷ trades) blocks =
    (transaction.type ≡ type)
    × IsTrade k j transaction n p
    × Fits type n blocks
    × AllTrades k j from_back transactions trades (replayed from_back type n p blocks)

abbrev pub replay : Bool → List Trade → List Block → List Block
replay from_back [] blocks = blocks
replay from_back ((type, (n, p)) ∷ trades) blocks =
    replay from_back trades (replayed from_back type n p blocks)

supported :
    (j : ℕ) (type : TransactionType) (price : Option Text) (p : ℕ)
    → IsPricedAt j type price p
    → assert_supported_type type ≡ ok tt
unfolding assert_supported_type
supported j buy price p h = refl
supported j sell price p h = refl
supported j transfer_in price p h = refl
supported j transfer_out price p h = refl
supported j (unsupported type) price p h = absurd h

module _ (k j : ℕ) (from_back : Bool) where
  lots_step-QueueReturns :
      (queue : Queue) (blocks : List Block) (transaction : CalculationTransaction) (n p : ℕ)
      → QueueHolds k j from_back queue blocks
      → IsTrade k j transaction n p
      → Fits transaction.type n blocks
      → QueueReturns
          (lots_step transaction queue)
          k
          j
          from_back
          (replayed from_back transaction.type n p blocks)
  unfolding lots_step
  lots_step-QueueReturns queue blocks transaction n p h v fits =
      rw
        (
          supported j transaction.type transaction.price p v.priced,
          assert_positive_amount_lem v.amount_denotes v.amount_positive,
          assert_fee_lem transaction.fee v.fee_valid,
        )
        (apply_lots-QueueReturns k j from_back queue blocks h transaction.amount n v.amount_denotes
          transaction transaction.type p v.priced v.amount_positive fits)

  lots_loop-QueueReturns :
      (transactions : List CalculationTransaction) (trades : List Trade) (queue : Queue)
      (blocks : List Block)
      → AllTrades k j from_back transactions trades blocks
      → QueueHolds k j from_back queue blocks
      → QueueReturns (lots_loop transactions queue) k j from_back (replay from_back trades blocks)
  lots_loop-QueueReturns [] [] queue blocks v h = record { next = queue; returns = refl; holds = h }
  lots_loop-QueueReturns [] (t ∷ ts) queue blocks v h = absurd v
  lots_loop-QueueReturns (t ∷ ts) [] queue blocks v h = absurd v
  lots_loop-QueueReturns (t ∷ ts) ((type, (n, p)) ∷ trades) queue blocks (e, v, fits, vs) h =
      let first = lots_step-QueueReturns queue blocks t n p h v (rw e fits) in
      rw first.returns (
        lots_loop-QueueReturns ts trades first.next (replayed from_back type n p blocks) vs
          (rw e at first.holds))

abbrev pub given_lots : Option (List Lot) → List Lot
given_lots none = []
given_lots (some lots) = lots

-- A position whose quantity and cost are those of its lots, which may be none.
pub record Opens (k j : ℕ) (from_back : Bool) (opening : CostBasisOpeningState)
    (blocks : List Block) : Type 0 where
  pub blocks_hold : AllBlocks k j (consumption_order from_back (given_lots opening.lots)) blocks
  pub quantity : Denotes opening.quantity (pos (units blocks)) k
  pub cost : Denotes opening.total_cost (pos (basis blocks)) (k + j)

no_blocks :
    (k j : ℕ) (from_back : Bool) (blocks : List Block)
    → AllBlocks k j (consumption_order from_back []) blocks
    → blocks ≡ []
no_blocks k j true [] h = refl
no_blocks k j true (b ∷ blocks) h = absurd h
no_blocks k j false [] h = refl
no_blocks k j false (b ∷ blocks) h = absurd h

open_empty :
    (store : LotStore) (quantity cost : Text) (k : ℕ)
    → Denotes quantity (pos 0) k
    → open_averaged store quantity cost ≡ ok store
unfolding open_averaged
open_empty store quantity cost k d =
    rw (compare-Denotes (pos 0) (pos 0) k d (zero_text-Denotes k)) refl

opened :
    (k j : ℕ) (from_back : Bool) (lots : Option (List Lot)) (quantity cost : Text)
    (blocks : List Block)
    → AllBlocks k j (consumption_order from_back (given_lots lots)) blocks
    → Denotes quantity (pos (units blocks)) k
    → open_lots (empty_store from_back) lots quantity cost
      ≡ ok (push_all (empty_store from_back) (given_lots lots))
unfolding open_lots
opened k j from_back none quantity cost blocks h d =
    open_empty (empty_store from_back) quantity cost k (rw (no_blocks k j from_back blocks h) at d)
opened k j from_back (some []) quantity cost blocks h d =
    open_empty (empty_store from_back) quantity cost k (rw (no_blocks k j from_back blocks h) at d)
opened k j from_back (some (lot ∷ lots)) quantity cost blocks h d = refl

-- A position whose quantity, cost and lots are those of the blocks.
pub record ReturnsLots (r : Result CostBasisResult) (k j : ℕ) (from_back : Bool)
    (blocks : List Block) : Type 0 where
  pub position : CostBasisResult
  pub lots : List Lot
  pub returns : r ≡ ok position
  pub lots_kept : position.lots ≡ some lots
  pub blocks_hold : AllBlocks k j (consumption_order from_back lots) blocks
  pub quantity : Denotes position.quantity (pos (units blocks)) k
  pub total_cost : Denotes position.total_cost (pos (basis blocks)) (k + j)

-- On a ledger of supported transactions with positive amounts and prices and valid fees, whose
-- disposals find enough units, and from an opening position whose quantity and cost are those of
-- its lots (or that is empty), the FIFO and LIFO calculation returns; its lots are those of the
-- replay of the ledger on numbers, in the order of consumption, its quantity is exactly their
-- number of units, and its total cost is exactly their cost.
pub calculate_lots-ReturnsLots :
    (k j : ℕ) (from_back : Bool) (transactions : List CalculationTransaction) (trades : List Trade)
    (opening : CostBasisOpeningState) (blocks : List Block)
    → AllTrades k j from_back transactions trades blocks
    → Opens k j from_back opening blocks
    → ReturnsLots
        (calculate_lots from_back transactions opening)
        k
        j
        from_back
        (replay from_back trades blocks)
unfolding calculate_lots
calculate_lots-ReturnsLots k j from_back transactions trades opening blocks v o =
    let given = given_lots opening.lots in
    let store = push_all (empty_store from_back) given in
    let loop =
      lots_loop-QueueReturns k j from_back transactions trades
        (record {
          lots = store;
          quantity = opening.quantity;
          total_cost = opening.total_cost;
          realized_pnl = [];
        })
        blocks v
        (record {
          pending = consumption_order from_back given;
          view = push_all-Pending from_back given;
          same_end = push_all-from_back from_back given;
          blocks_hold = o.blocks_hold;
          quantity = o.quantity;
          cost = o.cost;
        }) in
    let last = loop.holds in
    let handed =
      ap (consumption_order from_back)
        (rw last.same_end at (to_lots-Pending loop.next.lots last.pending last.view))
      ∙ order_twice from_back last.pending in
    rw
      (
        assert_opening_quantity_lem o.quantity,
        assert_opening_cost_lem o.cost,
        opened k j from_back opening.lots opening.quantity opening.total_cost blocks o.blocks_hold
            o.quantity,
        loop.returns,
      )
      (record {
        position = _;
        lots = to_lots loop.next.lots;
        returns = refl;
        lots_kept = refl;
        blocks_hold = rw handed last.blocks_hold;
        quantity = last.quantity;
        total_cost = last.cost;
      })
