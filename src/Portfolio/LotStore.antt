-- ===== src/Portfolio/LotStore.antt =====
-- src/features/portfolio/domain/calculation/lot.ts: the mutable lots of the FIFO and LIFO
-- strategies. The object is a record, and a method returns the new record with its result.
pub mod View
pub mod Blocks
pub mod Round
pub mod Loop
pub mod Consume
pub mod Lots
use nest_backend.Common.{
  ℕ, zero, suc, ◌+◌, ◌-◌, ◌*◌, ◌<◌, List, [], ◌∷◌, ◌++◌, Option, none, some, Bool, true, false, not,
  ◌&&◌, Result, ok, err, ◌>>=◌, if◌then◌else◌, ltb, leb, length, drop, get_elem?, set, drop_last,
  is_empty, type_error,
}
use nest_backend.Common.Text.{Text, text_eq}
use nest_backend.Decimal.{
  sum_decimals, subtract_decimals, multiply_decimals, compare_decimals, zero_text,
}
use nest_backend.Portfolio.Types.{Lot}
use nest_backend.Portfolio.Validation.{is_above}

pub record LotStore : Type 0 where
  pub from_back : Bool
  pub lots : List Lot
  pub head : ℕ

-- `new LotStore(fromBack)`
abbrev pub empty_store : Bool → LotStore
empty_store from_back = record { from_back = from_back; lots = []; head = 0 }

unfoldable pub push : LotStore → Lot → LotStore
push store lot = record store { lots = store.lots ++ lot ∷ [] }

abbrev pub compaction_threshold : ℕ
compaction_threshold = 1024

-- The test of the `while` loop.
unfoldable pub has_lots : LotStore → Bool
has_lots store = ltb store.head (length store.lots)

abbrev pub current_index : LotStore → ℕ
current_index store = if store.from_back then length store.lots - 1 else store.head

unfoldable pub current_lot : LotStore → Option Lot
current_lot store = get_elem? store.lots (current_index store)

-- `lot.quantity = …` on the current lot.
unfoldable pub write_lot : LotStore → Lot → LotStore
write_lot store lot = record store { lots = set store.lots (current_index store) lot }

-- `this.lots.pop()` or `this.head += 1`
unfoldable pub discard_lot : LotStore → LotStore
discard_lot store =
    if store.from_back
    then record store { lots = drop_last store.lots }
    else record store { head = store.head + 1 }

-- The variables of the loop in `consume`.
pub record Consuming : Type 0 where
  pub store : LotStore
  pub released : List Text
  pub remaining : Text

-- One round, for the current lot.
unfoldable pub consume_lot : Lot → Consuming → Result Consuming
consume_lot lot state = do
  order ← compare_decimals lot.quantity state.remaining
  let consumed = if is_above order then state.remaining else lot.quantity
  product ← multiply_decimals consumed lot.unit_cost
  remaining ← subtract_decimals state.remaining consumed
  quantity ← subtract_decimals lot.quantity consumed
  let written = write_lot state.store (record lot { quantity = quantity })
  ok (record {
    store = if text_eq quantity zero_text then discard_lot written else written;
    released = state.released ++ product ∷ [];
    remaining = remaining;
  })

-- Each round but the last removes a lot, so as many rounds as there are lots are enough.
unfoldable pub consume_loop : ℕ → Consuming → Result Consuming
consume_loop zero state = ok state
consume_loop (suc fuel) state = elim (has_lots state.store) [
  | false ↦ ok state
  | true ↦ elim (current_lot state.store) [
    | none ↦ err type_error
    | some lot ↦ do
      next ← consume_lot lot state
      elim (text_eq next.remaining zero_text) [ true ↦ ok next | false ↦ consume_loop fuel next ]
  ]
]

unfoldable pub compact : LotStore → LotStore
compact store =
    if ltb compaction_threshold store.head && leb (length store.lots) (store.head * 2)
    then record store { lots = drop store.head store.lots; head = 0 }
    else store

-- What follows the loop in `consume`.
unfoldable pub finish : Consuming → Result (LotStore × Text)
finish state =
    let store = if state.store.from_back then state.store else compact state.store in
    elim state.released [
      | [] ↦ ok (store, zero_text)
      | first ∷ rest ↦ do total ← sum_decimals (first ∷ rest); ok (store, total)
    ]

unfoldable pub consume : LotStore → Text → Result (LotStore × Text)
consume store amount = do
  order ← compare_decimals amount zero_text
  let run = do
    last ←
        consume_loop (length store.lots)
          (record { store = store; released = []; remaining = amount })
    finish last
  if is_above order then run else ok (store, zero_text)

unfoldable pub to_lots : LotStore → List Lot
to_lots store = drop store.head store.lots

abbrev pub push_all : LotStore → List Lot → LotStore
push_all store [] = store
push_all store (lot ∷ lots) = push_all (push store lot) lots

pub record ConsumeLotsResult : Type 0 where
  pub remaining_lots : List Lot
  pub released_basis : Text

-- `consumeLots`
unfoldable pub consume_lots : List Lot → Text → Bool → Result ConsumeLotsResult
consume_lots lots amount from_back = do
  (store, released_basis) ← consume (push_all (empty_store from_back) lots) amount
  ok (record { remaining_lots = to_lots store; released_basis = released_basis })
