-- ===== src/Portfolio/LotStore/Loop.antt =====
-- The loop of `consume` takes the units asked for, lot by lot.
use nest_backend.Common.{
  ℕ, zero, suc, ◌+◌, ◌-◌, ◌*◌, ◌≤◌, ◌<◌, ◌≡◌, refl, ◌∙◌, ap, List, [], ◌∷◌, ◌++◌, Bool, true, false,
  some, Result, ok, arith, ◌==◌, if◌then◌else◌, length, ◌⊎◌, inl, inr, min,
}
use nest_backend.Common.Int.{pos}
use nest_backend.Common.Text.{Text, text_eq}
use nest_backend.Decimal.{zero_text}
use nest_backend.Decimal.Value.{Denotes}
use nest_backend.Decimal.Arithmetic.{Summand, texts, total, AllDenote}
use nest_backend.Portfolio.Types.{Lot}
use nest_backend.Portfolio.LotStore.{
  Consuming, has_lots, current_lot, write_lot, discard_lot, consume_lot, consume_loop,
}
use nest_backend.Portfolio.LotStore.View.{
  Pending, Pending-Next, has_lots-nil, write-from_back, discard-from_back,
}
use nest_backend.Portfolio.LotStore.Round.{LotTaken, consume_lot-LotTaken}
use nest_backend.Portfolio.LotStore.Blocks.{
  Block, units, take_units, take_units-part, take_units-last, take_units-more, AllBlocks,
}

-- The loop's variables: the lots that are pending and their blocks, the `n` units still to take,
-- and the cost released so far.
pub record Taking (k j : ℕ) (from_back : Bool) (state : Consuming) (pending : List Lot)
    (blocks : List Block) (n cost : ℕ) : Type 0 where
  pub view : Pending state.store pending
  pub same_end : state.store.from_back ≡ from_back
  pub blocks_hold : AllBlocks k j pending blocks
  pub summands : List Summand
  pub texts_released : texts summands ≡ state.released
  pub all_denote : AllDenote (k + j) summands
  pub released : total summands ≡ cost
  pub remaining : Denotes state.remaining (pos n) k

texts-append :
    (vs : List Summand) (t : Text) (n : ℕ) → texts (vs ++ (t, n) ∷ []) ≡ texts vs ++ t ∷ []
texts-append [] t n = refl
texts-append ((u, m) ∷ vs) t n = ap (λ (l : List Text). u ∷ l) (texts-append vs t n)

total-append : (vs : List Summand) (t : Text) (n : ℕ) → total (vs ++ (t, n) ∷ []) ≡ total vs + n
total-append [] t n = omega arith
total-append ((u, m) ∷ vs) t n = omega (arith, total-append vs t n)

AllDenote-append :
    (k : ℕ) (vs : List Summand) (t : Text) (n : ℕ)
    → AllDenote k vs
    → Denotes t (pos n) k
    → AllDenote k (vs ++ (t, n) ∷ [])
AllDenote-append k [] t n h d = (d, tt)
AllDenote-append k ((u, m) ∷ vs) t n h d = (h.0, AllDenote-append k vs t n h.1 d)

compared : (q n : ℕ) → (n < q) ⊎ ((n ≡ q) ⊎ (q < n))
compared q n = omega arith

cost_same : (cost : ℕ) → cost + 0 ≡ cost
cost_same cost = omega arith

loop_stops :
    (fuel : ℕ) (state : Consuming)
    → has_lots state.store ≡ false
    → consume_loop fuel state ≡ ok state
unfolding consume_loop
loop_stops zero state e = refl
loop_stops (suc fuel) state e = rw (consume_loop, e) refl

loop_round :
    (fuel : ℕ) (state next : Consuming) (lot : Lot) (done : Bool)
    → has_lots state.store ≡ true
    → current_lot state.store ≡ some lot
    → consume_lot lot state ≡ ok next
    → text_eq next.remaining zero_text ≡ done
    → consume_loop (suc fuel) state ≡ (if done then ok next else consume_loop fuel next)
unfolding consume_loop
loop_round fuel state next lot true found read round e =
    rw (consume_loop, found, read, round)
      (ap
        (λ (b : Bool). elim b as (λ x. Result Consuming) [
          | true ↦ ok next
          | false ↦ consume_loop fuel next
        ])
        e)
loop_round fuel state next lot false found read round e =
    rw (consume_loop, found, read, round)
      (ap
        (λ (b : Bool). elim b as (λ x. Result Consuming) [
          | true ↦ ok next
          | false ↦ consume_loop fuel next
        ])
        e)

module _ (k j : ℕ) (from_back : Bool) where
  -- What a round leaves behind when it uses up the lot, and when it does not.
  used_up :
      (state : Consuming) (lot : Lot) (lots : List Lot) (q u n cost : ℕ) (blocks : List Block)
      → Taking k j from_back state (lot ∷ lots) ((q, u) ∷ blocks) n cost
      → (t : LotTaken lot state k j q u n q)
      → Taking k j from_back
          (record {
            store = discard_lot (write_lot state.store (record lot { quantity = t.kept }));
            released = state.released ++ t.product ∷ [];
            remaining = t.left;
          })
          lots
          blocks
          (n - q)
          (cost + q * u)
  used_up state lot lots q u n cost blocks h t =
      let lot' = record lot { quantity = t.kept } in
      record {
        view = (Pending-Next state.store lot lots h.view).discarded lot';
        same_end =
            discard-from_back (write_lot state.store lot')
            ∙ write-from_back state.store lot'
            ∙ h.same_end;
        blocks_hold = h.blocks_hold.1;
        summands = h.summands ++ (t.product, q * u) ∷ [];
        texts_released =
            texts-append h.summands t.product (q * u)
            ∙ ap (λ (l : List Text). l ++ t.product ∷ []) h.texts_released;
        all_denote =
            AllDenote-append (k + j) h.summands t.product (q * u) h.all_denote t.product_cost;
        released = rw (total-append h.summands t.product (q * u), h.released) refl;
        remaining = t.left_units;
      }

  used_part :
      (state : Consuming) (lot : Lot) (lots : List Lot) (q u n cost : ℕ) (blocks : List Block)
      → Taking k j from_back state (lot ∷ lots) ((q, u) ∷ blocks) n cost
      → (t : LotTaken lot state k j q u n n)
      → Taking k j from_back
          (record {
            store = write_lot state.store (record lot { quantity = t.kept });
            released = state.released ++ t.product ∷ [];
            remaining = t.left;
          })
          (record lot { quantity = t.kept } ∷ lots)
          ((q - n, u) ∷ blocks)
          (n - n)
          (cost + n * u)
  used_part state lot lots q u n cost blocks h t =
      let lot' = record lot { quantity = t.kept } in
      record {
        view = (Pending-Next state.store lot lots h.view).written lot';
        same_end = write-from_back state.store lot' ∙ h.same_end;
        blocks_hold = ((t.kept_units, h.blocks_hold.0.1), h.blocks_hold.1);
        summands = h.summands ++ (t.product, n * u) ∷ [];
        texts_released =
            texts-append h.summands t.product (n * u)
            ∙ ap (λ (l : List Text). l ++ t.product ∷ []) h.texts_released;
        all_denote =
            AllDenote-append (k + j) h.summands t.product (n * u) h.all_denote t.product_cost;
        released = rw (total-append h.summands t.product (n * u), h.released) refl;
        remaining = t.left_units;
      }

  -- The loop ends with the blocks that `take_units` leaves.
  pub record Ends (r : Result Consuming) (blocks : List Block) (n cost : ℕ) : Type 0 where
    pub next : Consuming
    pub pending : List Lot
    pub returns : r ≡ ok next
    pub taking : Taking k j from_back next pending blocks n cost

  abbrev pub EndsTaking : Result Consuming → List Block → ℕ → ℕ → Type 0
  EndsTaking r blocks n cost =
      Ends r (take_units blocks n).0 (n - units blocks) (cost + (take_units blocks n).1)

  loop_none :
      (fuel : ℕ) (state : Consuming) (n cost : ℕ)
      → Taking k j from_back state [] [] n cost
      → Ends (consume_loop fuel state) [] n cost
  loop_none fuel state n cost h = record {
    next = state;
    pending = [];
    returns = loop_stops fuel state (has_lots-nil state.store h.view);
    taking = h;
  }

  taken_of :
      (state : Consuming) (lot : Lot) (lots : List Lot) (q u n cost taken : ℕ) (blocks : List Block)
      → Taking k j from_back state (lot ∷ lots) ((q, u) ∷ blocks) n cost
      → min q n ≡ taken
      → LotTaken lot state k j q u n taken
  taken_of state lot lots q u n cost taken blocks h e =
      rw e at
        (consume_lot-LotTaken lot state k j q u n h.blocks_hold.0.0 h.blocks_hold.0.1 h.remaining)

  -- The rounds: part of the lot, all of it as the last lot, and all of it with more asked for.
  part_of_lot :
      (fuel : ℕ) (state : Consuming) (lot : Lot) (lots : List Lot) (q u n cost : ℕ)
      (blocks : List Block)
      → Taking k j from_back state (lot ∷ lots) ((q, u) ∷ blocks) n cost
      → n < q
      → Ends (consume_loop (suc fuel) state) ((q - n, u) ∷ blocks) 0 (cost + n * u)
  part_of_lot fuel state lot lots q u n cost blocks h part =
      let t = taken_of state lot lots q u n cost n blocks h (ground arith) in
      let at_lot = Pending-Next state.store lot lots h.view in
      let kept : (q - n == 0) ≡ false = ground arith in
      let left : (n - n == 0) ≡ true = ground arith in
      let none_left : n - n ≡ 0 = omega arith in
      let next = used_part state lot lots q u n cost blocks h t in
      record {
        next = _;
        pending = _;
        returns =
            loop_round fuel state _ lot true at_lot.found at_lot.read (rw kept at t.returns)
              (t.left_test ∙ left);
        taking = rw none_left at next;
      }

  whole_lot :
      (fuel : ℕ) (state : Consuming) (lot : Lot) (lots : List Lot) (q u n cost : ℕ)
      (blocks : List Block)
      → Taking k j from_back state (lot ∷ lots) ((q, u) ∷ blocks) n cost
      → q ≤ n
      → (next : Consuming) × (consume_loop (suc fuel) state
          ≡ (if n - q == 0 then ok next else consume_loop fuel next))
        × Taking k j from_back next lots blocks (n - q) (cost + q * u)
  whole_lot fuel state lot lots q u n cost blocks h whole =
      let t = taken_of state lot lots q u n cost q blocks h (ground arith) in
      let at_lot = Pending-Next state.store lot lots h.view in
      let kept : (q - q == 0) ≡ true = ground arith in
      (
        _,
        loop_round fuel state _ lot (n - q == 0) at_lot.found at_lot.read (rw kept at t.returns)
            t.left_test,
        used_up state lot lots q u n cost blocks h t,
      )

  loop_part :
      (fuel : ℕ) (state : Consuming) (lot : Lot) (lots : List Lot) (q u n cost : ℕ)
      (blocks : List Block)
      → Taking k j from_back state (lot ∷ lots) ((q, u) ∷ blocks) n cost
      → n < q
      → EndsTaking (consume_loop (suc fuel) state) ((q, u) ∷ blocks) n cost
  loop_part fuel state lot lots q u n cost blocks h part =
      let none_left : 0 ≡ n - units ((q, u) ∷ blocks) = omega arith in
      rw (take_units-part q u n blocks part)
        (rw none_left at (part_of_lot fuel state lot lots q u n cost blocks h part))

  loop_last :
      (fuel : ℕ) (state : Consuming) (lot : Lot) (lots : List Lot) (q u n cost : ℕ)
      (blocks : List Block)
      → Taking k j from_back state (lot ∷ lots) ((q, u) ∷ blocks) n cost
      → n ≡ q
      → EndsTaking (consume_loop (suc fuel) state) ((q, u) ∷ blocks) n cost
  loop_last fuel state lot lots q u n cost blocks h last =
      let (next, returns, taking) =
        whole_lot fuel state lot lots q u n cost blocks h (omega arith) in
      let none_left : n - q ≡ n - units ((q, u) ∷ blocks) = omega arith in
      let stops : (n - q == 0) ≡ true = ground arith in
      rw (take_units-last q u n blocks last) (record {
        next = next;
        pending = lots;
        returns = rw stops at returns;
        taking = rw none_left at taking;
      })

  loop_more :
      (fuel : ℕ) (state : Consuming) (lot : Lot) (lots : List Lot) (q u n cost : ℕ)
      (blocks : List Block)
      → Taking k j from_back state (lot ∷ lots) ((q, u) ∷ blocks) n cost
      → q < n
      → ((next : Consuming)
          → Taking k j from_back next lots blocks (n - q) (cost + q * u)
          → EndsTaking (consume_loop fuel next) blocks (n - q) (cost + q * u))
      → EndsTaking (consume_loop (suc fuel) state) ((q, u) ∷ blocks) n cost
  loop_more fuel state lot lots q u n cost blocks h more rest =
      let (next, returns, taking) =
        whole_lot fuel state lot lots q u n cost blocks h (omega arith) in
      let left : n - units ((q, u) ∷ blocks) ≡ n - q - units blocks = omega arith in
      let goes_on : (n - q == 0) ≡ false = ground arith in
      let total : cost + (q * u + (take_units blocks (n - q)).1)
          ≡ cost + q * u + (take_units blocks (n - q)).1 =
        omega arith in
      rw (take_units-more q u n blocks more, rw goes_on at returns, left, total) (rest next taking)

  -- What the loop leaves of the blocks, and what it does not find of the units.
  pub loop-Ends :
      (fuel : ℕ) (state : Consuming) (pending : List Lot) (blocks : List Block) (n cost : ℕ)
      → Taking k j from_back state pending blocks n cost
      → length pending ≤ fuel
      → EndsTaking (consume_loop fuel state) blocks n cost
  loop-Ends fuel state [] [] n cost h le =
      let same : n ≡ n - 0 = omega arith in
      rw (cost_same cost) (rw same at (loop_none fuel state n cost h))
  loop-Ends fuel state [] (b ∷ blocks) n cost h le = absurd h.blocks_hold
  loop-Ends fuel state (lot ∷ lots) [] n cost h le = absurd h.blocks_hold
  loop-Ends zero state (lot ∷ lots) (b ∷ blocks) n cost h le = absurd (omega arith)
  loop-Ends (suc fuel) state (lot ∷ lots) ((q, u) ∷ blocks) n cost h le = elim (compared q n) [
    | inl part ↦ loop_part fuel state lot lots q u n cost blocks h part
    | inr (inl last) ↦ loop_last fuel state lot lots q u n cost blocks h last
    | inr (inr more) ↦
        loop_more fuel state lot lots q u n cost blocks h more (λ next taking.
          loop-Ends fuel next lots blocks (n - q) (cost + q * u) taking (omega arith))
  ]
