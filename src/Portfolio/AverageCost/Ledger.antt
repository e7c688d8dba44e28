-- ===== src/Portfolio/AverageCost/Ledger.antt =====
-- The average-cost strategy on a valid ledger: it returns, no cost is negative, and its quantity
-- is the one that the holdings calculator returns.
use nest_backend.Common.{
  Option-cases, inl, inr, ℕ, ◌<◌, ◌≡◌, refl, sym, List, [], ◌∷◌, Option, none, some, Result, ok,
  ◌++◌, ◌+◌, ◌-◌, ◌*◌, ◌^◌,
}
use nest_backend.Common.Int.{pos, ◌-ℤ◌}
use nest_backend.Common.Text.{Text}
use nest_backend.Decimal.{subtract_decimals}
use nest_backend.Decimal.Value.{Denotes}
use nest_backend.Decimal.Arithmetic.{Returns}
use nest_backend.Decimal.Order.{subtract-Returns}
use nest_backend.Decimal.Scales.{
  NonNegative, sum_two, subtract_two, sum-NonNegative, multiply-NonNegative, subtract-NonNegative,
  Denotes-widen, Denotes_widen_left,
}
use nest_backend.Portfolio.Types.{
  TransactionType, buy, sell, transfer_in, transfer_out, unsupported, CalculationTransaction,
  CostBasisOpeningState, CostBasisResult,
}
use nest_backend.Portfolio.Validation.{assert_supported_type}
use nest_backend.Portfolio.Validation.Laws.{
  IsPositive, IsFee, IsOptionalPrice, require_price_lem, assert_optional_price_lem, assert_fee_lem,
  assert_positive_amount_lem, assert_opening_quantity_lem, assert_opening_cost_lem,
}
use nest_backend.Portfolio.Holdings.Held.{moved, Movement, held_after, clamp_disposal-Clamped}
use nest_backend.Portfolio.AverageCost.{Pool, apply_pooled, pooled_step, pooled_loop, calculate}
use nest_backend.Portfolio.AverageCost.Release.{release-Releases}

-- A purchase or a sale has a positive price; a transfer may have one.
abbrev pub IsPriced : TransactionType → Option Text → Type 0
IsPriced buy none = ⊥
IsPriced buy (some price) = IsPositive price
IsPriced sell none = ⊥
IsPriced sell (some price) = IsPositive price
IsPriced transfer_in price = IsOptionalPrice price
IsPriced transfer_out price = IsOptionalPrice price
IsPriced (unsupported type) price = ⊥

-- A transaction of `n / 10 ^ k` units that the guards let pass.
pub record IsValid (k : ℕ) (transaction : CalculationTransaction) (n : ℕ) : Type 0 where
  pub amount_denotes : Denotes transaction.amount (pos n) k
  pub amount_positive : 0 < n
  pub priced : IsPriced transaction.type transaction.price
  pub fee_valid : IsFee transaction.fee

abbrev pub AllValid : ℕ → List CalculationTransaction → List Movement → Type 0
AllValid k [] [] = Unit
AllValid k [] (move ∷ moves) = ⊥
AllValid k (transaction ∷ transactions) [] = ⊥
AllValid k (transaction ∷ transactions) ((type, n) ∷ moves) =
    (transaction.type ≡ type) × IsValid k transaction n × AllValid k transactions moves

-- The pool holds `held / 10 ^ k` units, at a cost that is not negative.
pub record Holding (k held : ℕ) (pool : Pool) : Type 0 where
  pub units : Denotes pool.quantity (pos held) k
  pub cost : NonNegative pool.total_cost

pub record StepsTo (r : Result Pool) (k held : ℕ) : Type 0 where
  pub next : Pool
  pub returns : r ≡ ok next
  pub holding : Holding k held next

at_scale : {t : Text} {n k : ℕ} → Denotes t (pos n) k → NonNegative t
at_scale {t} {n} {k} d = record { numerator = n; scale = k; denotes = d }

of_price : {t : Text} → IsPositive t → NonNegative t
of_price p = at_scale p.denotes

signed_difference :
    {t u : Text} (a : NonNegative t) (b : NonNegative u)
    → Returns
        (subtract_decimals t u)
        (pos (a.numerator * 10 ^ b.scale) -ℤ pos (b.numerator * 10 ^ a.scale))
        (a.scale + b.scale)
signed_difference a b =
    subtract-Returns (pos (a.numerator * 10 ^ b.scale)) (pos (b.numerator * 10 ^ a.scale))
      (a.scale + b.scale) (Denotes-widen b.scale a.denotes) (Denotes_widen_left a.scale b.denotes)

module _ (k held n : ℕ) (pool : Pool) (h : Holding k held pool) (amount : Text)
    (d : Denotes amount (pos n) k) where
  buy_step :
      (transaction : CalculationTransaction) (price : Text)
      → transaction.price ≡ some price
      → IsPositive price
      → StepsTo (apply_pooled buy transaction amount pool) k (held + n)
  unfolding apply_pooled
  buy_step transaction price e p =
      let units = sum_two h.units d in
      let spent = multiply-NonNegative (at_scale d) (of_price p) in
      let cost = sum-NonNegative h.cost spent.value in
      rw (e, require_price_lem p, units.returns, spent.returns, cost.returns)
        (record {
          next = record pool { quantity = units.text; total_cost = cost.text };
          returns = refl;
          holding = record { units = units.denotes; cost = cost.value };
        })

  sell_step :
      (transaction : CalculationTransaction) (price : Text)
      → transaction.price ≡ some price
      → IsPositive price
      → StepsTo (apply_pooled sell transaction amount pool) k (held - n)
  unfolding apply_pooled
  sell_step transaction price e p =
      let c = clamp_disposal-Clamped h.units d in
      let released = release-Releases h.cost h.units c.denotes c.fits in
      let proceeds = multiply-NonNegative (at_scale c.denotes) (of_price p) in
      let units = subtract_two h.units c.denotes c.fits in
      let cost = subtract-NonNegative h.cost released.value released.at_most in
      let gain = signed_difference proceeds.value released.value in
      rw
        (
          e,
          require_price_lem p,
          c.returns,
          released.returns,
          proceeds.returns,
          units.returns,
          cost.returns,
          gain.returns,
        )
        (record {
          next = record {
            quantity = units.text;
            total_cost = cost.text;
            realized_pnl =
                pool.realized_pnl
                ++ (record {
                  transaction_id = transaction.id;
                  occurred_at = transaction.occurred_at;
                  amount = c.text;
                  price = price;
                  proceeds = proceeds.text;
                  released_cost_basis = released.text;
                  realized_pnl = gain.text;
                  fee = transaction.fee;
                })
                  ∷ [];
          };
          returns = refl;
          holding = record { units = rw (sym c.rest) units.denotes; cost = cost.value };
        })

  transfer_in_step :
      (transaction : CalculationTransaction)
      → IsOptionalPrice transaction.price
      → StepsTo (apply_pooled transfer_in transaction amount pool) k (held + n)
  unfolding apply_pooled
  transfer_in_step transaction p =
      let units = sum_two h.units d in
      rw (assert_optional_price_lem transaction.price p, units.returns)
        (record {
          next = record pool { quantity = units.text };
          returns = refl;
          holding = record { units = units.denotes; cost = h.cost };
        })

  transfer_out_step :
      (transaction : CalculationTransaction)
      → IsOptionalPrice transaction.price
      → StepsTo (apply_pooled transfer_out transaction amount pool) k (held - n)
  unfolding apply_pooled
  transfer_out_step transaction p =
      let c = clamp_disposal-Clamped h.units d in
      let released = release-Releases h.cost h.units c.denotes c.fits in
      let units = subtract_two h.units c.denotes c.fits in
      let cost = subtract-NonNegative h.cost released.value released.at_most in
      rw
        (
          assert_optional_price_lem transaction.price p,
          c.returns,
          released.returns,
          units.returns,
          cost.returns,
        )
        (record {
          next = record pool { quantity = units.text; total_cost = cost.text };
          returns = refl;
          holding = record { units = rw (sym c.rest) units.denotes; cost = cost.value };
        })

  -- The `switch` on a valid transaction.
  apply_pooled-StepsTo :
      (transaction : CalculationTransaction) (type : TransactionType)
      → IsPriced type transaction.price
      → StepsTo (apply_pooled type transaction amount pool) k (moved type held n)
  apply_pooled-StepsTo transaction buy p = elim (Option-cases transaction.price) [
    | inl absent ↦ absurd (rw absent at p)
    | inr (price, e) ↦ buy_step transaction price e (rw e at p)
  ]
  apply_pooled-StepsTo transaction sell p = elim (Option-cases transaction.price) [
    | inl absent ↦ absurd (rw absent at p)
    | inr (price, e) ↦ sell_step transaction price e (rw e at p)
  ]
  apply_pooled-StepsTo transaction transfer_in p = transfer_in_step transaction p
  apply_pooled-StepsTo transaction transfer_out p = transfer_out_step transaction p
  apply_pooled-StepsTo transaction (unsupported type) p = absurd p

supported :
    (type : TransactionType) (price : Option Text)
    → IsPriced type price
    → assert_supported_type type ≡ ok tt
unfolding assert_supported_type
supported buy price p = refl
supported sell price p = refl
supported transfer_in price p = refl
supported transfer_out price p = refl
supported (unsupported type) price p = absurd p

pooled_step-StepsTo :
    (k held n : ℕ) (pool : Pool) (transaction : CalculationTransaction)
    → Holding k held pool
    → IsValid k transaction n
    → StepsTo (pooled_step transaction pool) k (moved transaction.type held n)
unfolding pooled_step
pooled_step-StepsTo k held n pool transaction h v =
    rw
      (
        supported transaction.type transaction.price v.priced,
        assert_positive_amount_lem v.amount_denotes v.amount_positive,
        assert_fee_lem transaction.fee v.fee_valid,
      )
      (apply_pooled-StepsTo k held n pool h transaction.amount v.amount_denotes transaction
        transaction.type v.priced)

pooled_loop-StepsTo :
    (k : ℕ) (transactions : List CalculationTransaction) (moves : List Movement) (held : ℕ)
    (pool : Pool)
    → AllValid k transactions moves
    → Holding k held pool
    → StepsTo (pooled_loop transactions pool) k (held_after moves held)
pooled_loop-StepsTo k [] [] held pool v h = record { next = pool; returns = refl; holding = h }
pooled_loop-StepsTo k [] (m ∷ ms) held pool v h = absurd v
pooled_loop-StepsTo k (t ∷ ts) [] held pool v h = absurd v
pooled_loop-StepsTo k (t ∷ ts) ((type, n) ∷ moves) held pool (e, v, vs) h =
    let first = pooled_step-StepsTo k held n pool t h v in
    rw first.returns
      (pooled_loop-StepsTo k ts moves (moved type held n) first.next vs (rw e at first.holding))

-- The strategy returns a position with the movements' quantity and a cost that is not negative.
pub record ReturnsPosition (r : Result CostBasisResult) (k held : ℕ) : Type 0 where
  pub position : CostBasisResult
  pub returns : r ≡ ok position
  pub quantity : Denotes position.quantity (pos held) k
  pub total_cost : NonNegative position.total_cost
  pub no_lots : position.lots ≡ none

-- On a ledger of supported transactions with positive amounts and prices and valid fees, and an
-- opening position that is not negative, AverageCostCalculator.calculate returns without lots,
-- also when more is disposed of than held; the quantity is the sum of the movements with each
-- disposal stopped at zero, and the total cost is not negative.
pub calculate-ReturnsPosition :
    (k held : ℕ) (transactions : List CalculationTransaction) (moves : List Movement)
    (opening : CostBasisOpeningState)
    → AllValid k transactions moves
    → Denotes opening.quantity (pos held) k
    → NonNegative opening.total_cost
    → ReturnsPosition (calculate transactions opening) k (held_after moves held)
unfolding calculate
calculate-ReturnsPosition k held transactions moves opening v q c =
    let loop =
      pooled_loop-StepsTo k transactions moves held
        (record { quantity = opening.quantity; total_cost = opening.total_cost; realized_pnl = [] })
        v (record { units = q; cost = c }) in
    rw (assert_opening_quantity_lem q, assert_opening_cost_lem c.denotes, loop.returns)
      (record {
        position = record {
          quantity = loop.next.quantity;
          total_cost = loop.next.total_cost;
          realized_pnl = loop.next.realized_pnl;
          lots = none;
        };
        returns = refl;
        quantity = loop.holding.units;
        total_cost = loop.holding.cost;
        no_lots = refl;
      })
