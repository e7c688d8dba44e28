-- ===== src/Portfolio/Types.antt =====
-- src/features/portfolio/domain/calculation/types: what the calculators read and return. Values
-- have their declared types, but for the transaction type, which the source checks when it runs.
use nest_backend.Common.{Option, List}
use nest_backend.Common.Text.{Text}

-- `unsupported` is any other value that reaches the calculators.
pub data TransactionType : Type 0 where
  buy sell transfer_in transfer_out : TransactionType
  unsupported : Text → TransactionType

pub record CalculationTransaction : Type 0 where
  pub id : Option Text
  pub type : TransactionType
  pub amount : Text
  pub price : Option Text
  pub fee : Option Text
  pub occurred_at : Text

pub record Lot : Type 0 where
  pub quantity : Text
  pub unit_cost : Text

pub record CostBasisOpeningState : Type 0 where
  pub quantity : Text
  pub total_cost : Text
  pub lots : Option (List Lot)

-- An event is always that of a sale, so it has no type of its own.
pub record RealizedPnlEvent : Type 0 where
  pub transaction_id : Option Text
  pub occurred_at : Text
  pub amount : Text
  pub price : Text
  pub proceeds : Text
  pub released_cost_basis : Text
  pub realized_pnl : Text
  pub fee : Option Text

pub record CostBasisResult : Type 0 where
  pub quantity : Text
  pub total_cost : Text
  pub realized_pnl : List RealizedPnlEvent
  pub lots : Option (List Lot)
