-- ===== src/Portfolio/Samples.antt =====
-- A small ledger, and what its numbers denote.
use nest_backend.Common.{refl, [], ◌∷◌, none, some, arith}
use nest_backend.Common.Int.{pos}
use nest_backend.Common.Text.{codes}
use nest_backend.Decimal.{plus, parse_decimal, decimal_format}
use nest_backend.Decimal.Value.{Denotes}
use nest_backend.Portfolio.Types.{buy, sell, CalculationTransaction, CostBasisOpeningState}
use nest_backend.Portfolio.AverageCost.Ledger.{AllValid}

pub two : Denotes (codes "2") (pos 20) 1
unfolding parse_decimal decimal_format
two = record {
  parsed = record { sign = plus; coefficient = 2; scale = 0 };
  parses = refl;
  holds = record { signed_as = refl; value = refl };
}

pub one_and_half : Denotes (codes "1.5") (pos 15) 1
unfolding parse_decimal decimal_format
one_and_half = record {
  parsed = record { sign = plus; coefficient = 15; scale = 1 };
  parses = refl;
  holds = record { signed_as = refl; value = refl };
}

pub three : Denotes (codes "3") (pos 30) 1
unfolding parse_decimal decimal_format
three = record {
  parsed = record { sign = plus; coefficient = 3; scale = 0 };
  parses = refl;
  holds = record { signed_as = refl; value = refl };
}

pub price_three : Denotes (codes "3") (pos 3) 0
unfolding parse_decimal decimal_format
price_three = record {
  parsed = record { sign = plus; coefficient = 3; scale = 0 };
  parses = refl;
  holds = record { signed_as = refl; value = refl };
}

pub price_four : Denotes (codes "4") (pos 4) 0
unfolding parse_decimal decimal_format
price_four = record {
  parsed = record { sign = plus; coefficient = 4; scale = 0 };
  parses = refl;
  holds = record { signed_as = refl; value = refl };
}

pub cost_twelve : Denotes (codes "12") (pos 120) 1
unfolding parse_decimal decimal_format
cost_twelve = record {
  parsed = record { sign = plus; coefficient = 12; scale = 0 };
  parses = refl;
  holds = record { signed_as = refl; value = refl };
}

abbrev pub purchase : CalculationTransaction
purchase = record {
  id = some (codes "a");
  type = buy;
  amount = codes "1.5";
  price = some (codes "4");
  fee = none;
  occurred_at = codes "2024-01-01T00:00:00.000Z";
}

abbrev pub sale : CalculationTransaction
sale = record {
  id = some (codes "b");
  type = sell;
  amount = codes "3";
  price = some (codes "4");
  fee = some (codes "2");
  occurred_at = codes "2024-01-02T00:00:00.000Z";
}

abbrev pub opening_position : CostBasisOpeningState
opening_position = record { quantity = codes "2"; total_cost = codes "12"; lots = none }

pub purchase_and_sale : AllValid 1 (purchase ∷ sale ∷ []) ((buy, 15) ∷ (sell, 30) ∷ [])
purchase_and_sale = (
  refl,
  record {
    amount_denotes = one_and_half;
    amount_positive = omega arith;
    priced = record { amount = 4; scale = 0; positive = omega arith; denotes = price_four };
    fee_valid = tt;
  },
  (
    refl,
    record {
      amount_denotes = three;
      amount_positive = omega arith;
      priced = record { amount = 4; scale = 0; positive = omega arith; denotes = price_four };
      fee_valid = (20, 1, two);
    },
    tt,
  ),
)
