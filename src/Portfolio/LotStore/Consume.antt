-- ===== src/Portfolio/LotStore/Consume.antt =====
-- `consume` takes exactly the units asked for, in order, and releases their cost.
use nest_backend.Common.{
  ℕ, ◌+◌, ◌-◌, ◌<◌, ◌≡◌, refl, sym, ◌∙◌, List, [], ◌∷◌, Bool, true, Result, ok, arith,
  if◌then◌else◌, length,
}
use nest_backend.Common.Int.{pos, compare_ℤ}
use nest_backend.Common.Text.{Text}
use nest_backend.Decimal.{zero_text, sum_decimals}
use nest_backend.Decimal.Value.{Denotes}
use nest_backend.Decimal.Arithmetic.{sum-Returns, Summand, texts, total, AllDenote}
use nest_backend.Decimal.Order.{compare-Denotes}
use nest_backend.Decimal.Laws.{zero_text-Denotes}
use nest_backend.Portfolio.Types.{Lot}
use nest_backend.Portfolio.Validation.{is_above}
use nest_backend.Portfolio.LotStore.{LotStore, Consuming, finish, compact, consume}
use nest_backend.Portfolio.LotStore.View.{
  Pending, length-Pending, finished-Pending, finished-from_back,
}
use nest_backend.Portfolio.LotStore.Loop.{Taking, loop-Ends}
use nest_backend.Portfolio.LotStore.Blocks.{Block, units, take_units, AllBlocks}

finish_none :
    (state : Consuming)
    → state.released ≡ []
    → finish state
      ≡ ok (if state.store.from_back then state.store else compact state.store, zero_text)
unfolding finish
finish_none state e = rw (finish, e) refl

finish_some :
    (state : Consuming) (first total : Text) (rest : List Text)
    → state.released ≡ first ∷ rest
    → sum_decimals (first ∷ rest) ≡ ok total
    → finish state ≡ ok (if state.store.from_back then state.store else compact state.store, total)
unfolding finish
finish_some state first total rest e f = rw (finish, e, f) refl

-- The lots that are left, and the cost that is released.
pub record Consumed (k j : ℕ) (from_back : Bool) (r : Result (LotStore × Text))
    (blocks : List Block) (cost : ℕ) : Type 0 where
  pub store : LotStore
  pub text : Text
  pub pending : List Lot
  pub returns : r ≡ ok (store, text)
  pub view : Pending store pending
  pub same_end : store.from_back ≡ from_back
  pub blocks_hold : AllBlocks k j pending blocks
  pub denotes : Denotes text (pos cost) (k + j)

finish-Consumed :
    (k j : ℕ) (from_back : Bool) (state : Consuming) (pending : List Lot) (blocks : List Block)
    (n cost : ℕ)
    → Taking k j from_back state pending blocks n cost
    → Consumed k j from_back (finish state) blocks cost
finish-Consumed k j from_back state pending blocks n cost h =
    go h.summands h.texts_released h.all_denote h.released
  where
    kept :
        (total : Text)
        → finish state
          ≡ ok (if state.store.from_back then state.store else compact state.store, total)
        → Denotes total (pos cost) (k + j)
        → Consumed k j from_back (finish state) blocks cost
    kept total e d = record {
      store = if state.store.from_back then state.store else compact state.store;
      text = total;
      pending = pending;
      returns = e;
      view = finished-Pending state.store pending h.view;
      same_end = finished-from_back state.store ∙ h.same_end;
      blocks_hold = h.blocks_hold;
      denotes = d;
    }

    go :
        (summands : List Summand)
        → texts summands ≡ state.released
        → AllDenote (k + j) summands
        → total summands ≡ cost
        → Consumed k j from_back (finish state) blocks cost
    go [] e d c = kept zero_text (finish_none state (sym e)) (rw (← c) (zero_text-Denotes (k + j)))
    go (v ∷ vs) e d c =
        let s = sum-Returns (k + j) v vs d in
        kept s.text (finish_some state v.0 s.text (texts vs) (sym e) s.returns) (rw (← c) s.denotes)

zero_plus : (cost : ℕ) → 0 + cost ≡ cost
zero_plus cost = omega arith

start :
    (k j : ℕ) (store : LotStore) (pending : List Lot) (blocks : List Block) (amount : Text) (n : ℕ)
    → Pending store pending
    → AllBlocks k j pending blocks
    → Denotes amount (pos n) k
    → Taking k j store.from_back
        (record { store = store; released = []; remaining = amount })
        pending
        blocks
        n
        0
start k j store pending blocks amount n view hold d = record {
  view = view;
  same_end = refl;
  blocks_hold = hold;
  summands = [];
  texts_released = refl;
  all_denote = tt;
  released = refl;
  remaining = d;
}

-- LotStore.consume of a positive amount returns for every store whose pending lots hold the given
-- blocks of units and unit costs: the lots that stay pending are those of taking that many units
-- block by block in the order of consumption, or of taking all of them if there are fewer, and the
-- text returned denotes exactly the cost of what was taken.
pub consume-Consumed :
    (k j : ℕ) (store : LotStore) (pending : List Lot) (blocks : List Block) (amount : Text) (n : ℕ)
    → Pending store pending
    → AllBlocks k j pending blocks
    → Denotes amount (pos n) k
    → 0 < n
    → Consumed k j store.from_back
        (consume store amount)
        (take_units blocks n).0
        (take_units blocks n).1
unfolding consume
consume-Consumed k j store pending blocks amount n view hold d some_units =
    let compared = compare-Denotes (pos n) (pos 0) k d (zero_text-Denotes k) in
    let above : is_above (compare_ℤ (pos n) (pos 0)) ≡ true = ground arith in
    let run =
      loop-Ends k j store.from_back (length store.lots)
        (record { store = store; released = []; remaining = amount }) pending blocks n 0
        (start k j store pending blocks amount n view hold d) (length-Pending store pending view) in
    let ended = rw (zero_plus (take_units blocks n).1) at run.taking in
    rw (compared, above, run.returns)
      (finish-Consumed k j store.from_back run.next run.pending (take_units blocks n).0
        (n - units blocks) (take_units blocks n).1 ended)
