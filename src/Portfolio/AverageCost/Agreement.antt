-- ===== src/Portfolio/AverageCost/Agreement.antt =====
-- The average-cost strategy and the holdings calculator agree on the quantity held.
use nest_backend.Common.{◌≡◌, inl, inr, Result-cases, List, [], ◌∷◌, some, ok, arith}
use nest_backend.Common.Text.{Text}
use nest_backend.Portfolio.Types.{
  TransactionType, buy, sell, transfer_in, transfer_out, unsupported, CalculationTransaction,
  CostBasisOpeningState, CostBasisResult,
}
use nest_backend.Portfolio.Validation.{
  assert_positive_amount, assert_opening_quantity, assert_opening_cost,
}
use nest_backend.Portfolio.Holdings.{apply_quantity, quantity_loop, calculate_quantity}
use nest_backend.Portfolio.AverageCost.{Pool, apply_pooled, pooled_step, pooled_loop, calculate}

same_amount : (t u : Text) → assert_positive_amount t ≡ ok u → u ≡ t
unfolding assert_positive_amount
same_amount t u h = ground arith

same_opening : (t u : Text) → assert_opening_quantity t ≡ ok u → u ≡ t
unfolding assert_opening_quantity
same_opening t u h = ground arith

apply_agrees :
    (type : TransactionType) (transaction : CalculationTransaction) (amount : Text)
    (pool next : Pool)
    → apply_pooled type transaction amount pool ≡ ok next
    → apply_quantity type pool.quantity amount ≡ ok next.quantity
unfolding apply_pooled apply_quantity
apply_agrees buy transaction amount pool next h = ground arith
apply_agrees sell transaction amount pool next h = ground arith
apply_agrees transfer_in transaction amount pool next h = ground arith
apply_agrees transfer_out transaction amount pool next h = ground arith
apply_agrees (unsupported type) transaction amount pool next h = ground arith

step_agrees :
    (transaction : CalculationTransaction) (pool next : Pool)
    → pooled_step transaction pool ≡ ok next
    → apply_quantity transaction.type pool.quantity transaction.amount ≡ ok next.quantity
unfolding pooled_step
step_agrees transaction pool next h =
    elim (Result-cases (assert_positive_amount transaction.amount)) [
      | inl (u, e) ↦ ground (
        arith,
        same_amount transaction.amount u,
        apply_agrees transaction.type transaction u pool next,
      )
      | inr (fault, e) ↦ ground arith
    ]

loop_agrees :
    (transactions : List CalculationTransaction) (pool last : Pool)
    → pooled_loop transactions pool ≡ ok last
    → quantity_loop transactions pool.quantity ≡ ok last.quantity
loop_agrees [] pool last h = ground arith
loop_agrees (t ∷ ts) pool last h = elim (Result-cases (pooled_step t pool)) [
  | inl (next, e) ↦ rw (step_agrees t pool next e) (loop_agrees ts next last (rw e at h))
  | inr (fault, e) ↦ ground arith
]

start : Text → Text → Pool
start quantity total_cost = record {
  quantity = quantity;
  total_cost = total_cost;
  realized_pnl = [];
}

-- Whenever AverageCostCalculator.calculate returns, HoldingsCalculator.calculateQuantity returns
-- the same quantity text for the same ledger and opening quantity.
pub calculate_agrees :
    (transactions : List CalculationTransaction) (opening : CostBasisOpeningState)
    {position : CostBasisResult}
    → calculate transactions opening ≡ ok position
    → calculate_quantity transactions (some opening.quantity) ≡ ok position.quantity
unfolding calculate calculate_quantity start
calculate_agrees transactions opening {position} h =
    elim (Result-cases (assert_opening_quantity opening.quantity)) [
      | inr (fault, e) ↦ ground arith
      | inl (q, e) ↦ elim (Result-cases (assert_opening_cost opening.total_cost)) [
        | inr (fault, f) ↦ ground arith
        | inl (c, f) ↦ elim (Result-cases (pooled_loop transactions (start q c))) [
          | inr (fault, g) ↦ ground arith
          | inl (last, g) ↦
              ground
                (arith, same_opening opening.quantity q, loop_agrees transactions (start q c) last)
        ]
      ]
    ]
