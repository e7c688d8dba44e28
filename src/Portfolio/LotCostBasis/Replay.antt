-- ===== src/Portfolio/LotCostBasis/Replay.antt =====
-- The FIFO and LIFO strategies on a valid ledger: quantity, total cost and lots are those of a
-- replay of the ledger on numbers.
use nest_backend.Common.{
  Option-cases, inl, inr, ℕ, ◌<◌, ◌≤◌, ◌≡◌, refl, ◌∙◌, List, [], ◌∷◌, ◌++◌, Option, none, some,
  Bool, true, false, Result, ok, arith, ◌+◌, ◌-◌, ◌*◌,
}
use nest_backend.Common.Int.{pos}
use nest_backend.Common.Text.{Text}
use nest_backend.Decimal.{zero_text}
use nest_backend.Decimal.Value.{Denotes}
use nest_backend.Decimal.Arithmetic.{multiply-Returns}
use nest_backend.Decimal.Order.{subtract-Returns}
use nest_backend.Decimal.Laws.{zero_text-Denotes}
use nest_backend.Decimal.Scales.{sum_two, subtract_two}
use nest_backend.Portfolio.Types.{
  TransactionType, buy, sell, transfer_in, transfer_out, unsupported, CalculationTransaction, Lot,
}
use nest_backend.Portfolio.Validation.Laws.{
  IsPositive, IsOptionalPrice, require_price_lem, assert_optional_price_lem, assert_available_lem,
}
use nest_backend.Portfolio.LotStore.{LotStore, push, consume}
use nest_backend.Portfolio.LotStore.View.{Pending, with_lot, push-Pending}
use nest_backend.Portfolio.LotStore.Blocks.{
  Block, units, basis, take_units, IsBlock, AllBlocks, units-take_units, basis-take_units,
}
use nest_backend.Portfolio.LotStore.Consume.{Consumed, consume-Consumed}
use nest_backend.Portfolio.LotCostBasis.{Queue, apply_lots}

-- The blocks in the order of consumption after a movement of `n` units at the price `p`. A transfer
-- brings no cost.
abbrev pub replayed : Bool → TransactionType → ℕ → ℕ → List Block → List Block
replayed from_back buy n p blocks = with_lot from_back (n, p) blocks
replayed from_back sell n p blocks = (take_units blocks n).0
replayed from_back transfer_in n p blocks = with_lot from_back (n, 0) blocks
replayed from_back transfer_out n p blocks = (take_units blocks n).0
replayed from_back (unsupported type) n p blocks = blocks

-- Enough is held for a disposal.
abbrev pub Fits : TransactionType → ℕ → List Block → Type 0
Fits buy n blocks = Unit
Fits sell n blocks = n ≤ units blocks
Fits transfer_in n blocks = Unit
Fits transfer_out n blocks = n ≤ units blocks
Fits (unsupported type) n blocks = ⊥

-- A purchase or a sale has the positive price `p / 10 ^ j`; a transfer may have one.
abbrev pub IsPricedAt : ℕ → TransactionType → Option Text → ℕ → Type 0
IsPricedAt j buy none p = ⊥
IsPricedAt j buy (some price) p = (0 < p) × Denotes price (pos p) j
IsPricedAt j sell none p = ⊥
IsPricedAt j sell (some price) p = (0 < p) × Denotes price (pos p) j
IsPricedAt j transfer_in price p = IsOptionalPrice price
IsPricedAt j transfer_out price p = IsOptionalPrice price
IsPricedAt j (unsupported type) price p = ⊥

-- The queue's quantity and cost are those of its lots.
pub record QueueHolds (k j : ℕ) (from_back : Bool) (queue : Queue) (blocks : List Block)
    : Type 0 where
  pub pending : List Lot
  pub view : Pending queue.lots pending
  pub same_end : queue.lots.from_back ≡ from_back
  pub blocks_hold : AllBlocks k j pending blocks
  pub quantity : Denotes queue.quantity (pos (units blocks)) k
  pub cost : Denotes queue.total_cost (pos (basis blocks)) (k + j)

pub record QueueReturns (r : Result Queue) (k j : ℕ) (from_back : Bool) (blocks : List Block)
    : Type 0 where
  pub next : Queue
  pub returns : r ≡ ok next
  pub holds : QueueHolds k j from_back next blocks

units-append : (blocks : List Block) (n p : ℕ) → units (blocks ++ (n, p) ∷ []) ≡ units blocks + n
units-append [] n p = omega arith
units-append ((q, u) ∷ blocks) n p = omega (arith, units-append blocks n p)

basis-append :
    (blocks : List Block) (n p : ℕ) → basis (blocks ++ (n, p) ∷ []) ≡ basis blocks + n * p
basis-append [] n p = omega arith
basis-append ((q, u) ∷ blocks) n p = omega (arith, basis-append blocks n p)

units-with_lot :
    (from_back : Bool) (blocks : List Block) (n p : ℕ)
    → units blocks + n ≡ units (with_lot from_back (n, p) blocks)
units-with_lot true blocks n p = omega arith
units-with_lot false blocks n p = omega (arith, units-append blocks n p)

basis-with_lot :
    (from_back : Bool) (blocks : List Block) (n p : ℕ)
    → basis blocks + n * p ≡ basis (with_lot from_back (n, p) blocks)
basis-with_lot true blocks n p = omega arith
basis-with_lot false blocks n p = omega (arith, basis-append blocks n p)

AllBlocks-append :
    (k j : ℕ) (lots : List Lot) (blocks : List Block) (lot : Lot) (block : Block)
    → AllBlocks k j lots blocks
    → IsBlock k j lot block
    → AllBlocks k j (lots ++ lot ∷ []) (blocks ++ block ∷ [])
AllBlocks-append k j [] [] lot block h b = (b, tt)
AllBlocks-append k j [] (c ∷ blocks) lot block h b = absurd h
AllBlocks-append k j (l ∷ lots) [] lot block h b = absurd h
AllBlocks-append k j (l ∷ lots) (c ∷ blocks) lot block h b =
    (h.0, AllBlocks-append k j lots blocks lot block h.1 b)

AllBlocks-with_lot :
    (k j : ℕ) (from_back : Bool) (lots : List Lot) (blocks : List Block) (lot : Lot) (block : Block)
    → AllBlocks k j lots blocks
    → IsBlock k j lot block
    → AllBlocks k j (with_lot from_back lot lots) (with_lot from_back block blocks)
AllBlocks-with_lot k j true lots blocks lot block h b = (b, h)
AllBlocks-with_lot k j false lots blocks lot block h b =
    AllBlocks-append k j lots blocks lot block h b

push-from_back : (store : LotStore) (lot : Lot) → (push store lot).from_back ≡ store.from_back
unfolding push
push-from_back store lot = refl

module _ (k j : ℕ) (from_back : Bool) (queue : Queue) (blocks : List Block)
    (h : QueueHolds k j from_back queue blocks) (amount : Text) (n : ℕ)
    (d : Denotes amount (pos n) k) where
  -- A lot is acquired at the unit cost `p / 10 ^ j`.
  acquired :
      (unit_cost quantity total_cost : Text) (p : ℕ)
      → Denotes unit_cost (pos p) j
      → Denotes quantity (pos (units blocks + n)) k
      → Denotes total_cost (pos (basis blocks + n * p)) (k + j)
      → QueueHolds k j from_back
          (record queue {
            lots = push queue.lots (record { quantity = amount; unit_cost = unit_cost });
            quantity = quantity;
            total_cost = total_cost;
          })
          (with_lot from_back (n, p) blocks)
  acquired unit_cost quantity total_cost p u q c =
      let lot : Lot = record { quantity = amount; unit_cost = unit_cost } in
      record {
        pending = with_lot from_back lot h.pending;
        view = rw (← h.same_end) (push-Pending queue.lots lot h.pending h.view);
        same_end = push-from_back queue.lots lot ∙ h.same_end;
        blocks_hold =
            AllBlocks-with_lot k j from_back h.pending blocks lot (n, p) h.blocks_hold (d, u);
        quantity = rw (units-with_lot from_back blocks n p) at q;
        cost = rw (basis-with_lot from_back blocks n p) at c;
      }

  bought :
      (transaction : CalculationTransaction) (price : Text) (p : ℕ)
      → transaction.price ≡ some price
      → 0 < p
      → Denotes price (pos p) j
      → QueueReturns
          (apply_lots buy transaction amount queue)
          k
          j
          from_back
          (with_lot from_back (n, p) blocks)
  unfolding apply_lots
  bought transaction price p e positive u =
      let checked : IsPositive price = record {
        amount = p;
        scale = j;
        positive = positive;
        denotes = u;
      } in
      let quantity = sum_two h.quantity d in
      let spent = multiply-Returns n p k j d u in
      let cost = sum_two h.cost spent.denotes in
      rw (e, require_price_lem checked, quantity.returns, spent.returns, cost.returns)
        (record {
          next = _;
          returns = refl;
          holds = acquired price quantity.text cost.text p u quantity.denotes cost.denotes;
        })

  received :
      (transaction : CalculationTransaction) (p : ℕ)
      → IsOptionalPrice transaction.price
      → QueueReturns
          (apply_lots transfer_in transaction amount queue)
          k
          j
          from_back
          (with_lot from_back (n, 0) blocks)
  unfolding apply_lots
  received transaction p checked =
      let quantity = sum_two h.quantity d in
      let same : basis blocks ≡ basis blocks + n * 0 = omega arith in
      rw (assert_optional_price_lem transaction.price checked, quantity.returns)
        (record {
          next = _;
          returns = refl;
          holds =
              acquired zero_text quantity.text queue.total_cost 0 (zero_text-Denotes j)
                quantity.denotes (rw same at h.cost);
        })

  -- What a disposal of no more than is held does to the lots.
  released :
      0 < n
      → Consumed k j queue.lots.from_back
          (consume queue.lots amount)
          (take_units blocks n).0
          (take_units blocks n).1
  released positive =
      consume-Consumed k j queue.lots h.pending blocks amount n h.view h.blocks_hold d positive

  left_units : n ≤ units blocks → units blocks - n ≡ units (take_units blocks n).0
  left_units fits = omega (arith, units-take_units blocks n fits)

  released_fits : (take_units blocks n).1 ≤ basis blocks
  released_fits = omega (arith, basis-take_units blocks n)

  left_basis : basis blocks - (take_units blocks n).1 ≡ basis (take_units blocks n).0
  left_basis = omega (arith, basis-take_units blocks n)

  sold :
      (transaction : CalculationTransaction) (price : Text) (p : ℕ)
      → transaction.price ≡ some price
      → 0 < p
      → Denotes price (pos p) j
      → 0 < n
      → n ≤ units blocks
      → QueueReturns
          (apply_lots sell transaction amount queue)
          k
          j
          from_back
          (take_units blocks n).0
  unfolding apply_lots
  sold transaction price p e positive u some_units fits =
      let checked : IsPositive price = record {
        amount = p;
        scale = j;
        positive = positive;
        denotes = u;
      } in
      let c = released some_units in
      let proceeds = multiply-Returns n p k j d u in
      let quantity = subtract_two h.quantity d fits in
      let cost = subtract_two h.cost c.denotes released_fits in
      let gain =
        subtract-Returns (pos (n * p)) (pos (take_units blocks n).1) (k + j) proceeds.denotes
          c.denotes in
      rw
        (
          e,
          require_price_lem checked,
          assert_available_lem h.quantity d fits,
          c.returns,
          proceeds.returns,
          quantity.returns,
          cost.returns,
          gain.returns,
        )
        (record {
          next = _;
          returns = refl;
          holds = record {
            pending = c.pending;
            view = c.view;
            same_end = c.same_end ∙ h.same_end;
            blocks_hold = c.blocks_hold;
            quantity = rw (left_units fits) at quantity.denotes;
            cost = rw left_basis at cost.denotes;
          };
        })

  sent :
      (transaction : CalculationTransaction)
      → IsOptionalPrice transaction.price
      → 0 < n
      → n ≤ units blocks
      → QueueReturns
          (apply_lots transfer_out transaction amount queue)
          k
          j
          from_back
          (take_units blocks n).0
  unfolding apply_lots
  sent transaction checked some_units fits =
      let c = released some_units in
      let quantity = subtract_two h.quantity d fits in
      let cost = subtract_two h.cost c.denotes released_fits in
      rw
        (
          assert_optional_price_lem transaction.price checked,
          assert_available_lem h.quantity d fits,
          c.returns,
          quantity.returns,
          cost.returns,
        )
        (record {
          next = _;
          returns = refl;
          holds = record {
            pending = c.pending;
            view = c.view;
            same_end = c.same_end ∙ h.same_end;
            blocks_hold = c.blocks_hold;
            quantity = rw (left_units fits) at quantity.denotes;
            cost = rw left_basis at cost.denotes;
          };
        })

  -- The `switch` on a valid transaction.
  pub apply_lots-QueueReturns :
      (transaction : CalculationTransaction) (type : TransactionType) (p : ℕ)
      → IsPricedAt j type transaction.price p
      → 0 < n
      → Fits type n blocks
      → QueueReturns
          (apply_lots type transaction amount queue)
          k
          j
          from_back
          (replayed from_back type n p blocks)
  apply_lots-QueueReturns transaction buy p priced some_units fits =
      elim (Option-cases transaction.price) [
        | inl absent ↦ absurd (rw absent at priced)
        | inr (price, e) ↦
            let (positive, u) : (0 < p) × Denotes price (pos p) j = rw e at priced in
            bought transaction price p e positive u
      ]
  apply_lots-QueueReturns transaction sell p priced some_units fits =
      elim (Option-cases transaction.price) [
        | inl absent ↦ absurd (rw absent at priced)
        | inr (price, e) ↦
            let (positive, u) : (0 < p) × Denotes price (pos p) j = rw e at priced in
            sold transaction price p e positive u some_units fits
      ]
  apply_lots-QueueReturns transaction transfer_in p priced some_units fits =
      received transaction p priced
  apply_lots-QueueReturns transaction transfer_out p priced some_units fits =
      sent transaction priced some_units fits
  apply_lots-QueueReturns transaction (unsupported type) p priced some_units fits = absurd priced
