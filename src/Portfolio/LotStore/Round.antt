-- ===== src/Portfolio/LotStore/Round.antt =====
-- One round of the loop of `consume`, on decimals.
use nest_backend.Common.{
  ℕ, ◌+◌, ◌-◌, ◌*◌, ◌≤◌, ◌≡◌, refl, [], ◌∷◌, ◌++◌, Bool, true, false, ok, arith, ◌==◌,
  if◌then◌else◌, Bool-cases, inl, inr, Ordering, ltb, min,
}
use nest_backend.Common.Int.{pos, compare_ℤ}
use nest_backend.Common.Text.{Text, text_eq}
use nest_backend.Decimal.{zero_text, compare_decimals}
use nest_backend.Decimal.Value.{Denotes}
use nest_backend.Decimal.Arithmetic.{multiply-Returns}
use nest_backend.Decimal.Order.{compare-Denotes}
use nest_backend.Decimal.Scales.{subtract_two}
use nest_backend.Decimal.Canonical.{zero_test}
use nest_backend.Portfolio.Types.{Lot}
use nest_backend.Portfolio.Validation.{is_above}
use nest_backend.Portfolio.LotStore.{Consuming, write_lot, discard_lot, consume_lot}

-- `consumed` of the source.
abbrev pub consumed_text : Lot → Consuming → Bool → Text
consumed_text lot state above = if above then state.remaining else lot.quantity

-- A round that takes `taken` of the lot's `q` units, of `n` asked for.
pub record LotTaken (lot : Lot) (state : Consuming) (k j q u n taken : ℕ) : Type 0 where
  pub product : Text
  pub kept : Text
  pub left : Text
  pub returns :
      consume_lot lot state
      ≡ ok (record {
        store =
            if q - taken == 0
            then discard_lot (write_lot state.store (record lot { quantity = kept }))
            else write_lot state.store (record lot { quantity = kept });
        released = state.released ++ product ∷ [];
        remaining = left;
      })
  pub product_cost : Denotes product (pos (taken * u)) (k + j)
  pub kept_units : Denotes kept (pos (q - taken)) k
  pub left_units : Denotes left (pos (n - taken)) k
  pub left_test : text_eq left zero_text ≡ (n - taken == 0)

taking :
    (lot : Lot) (state : Consuming) (k j q u n taken : ℕ) (order : Ordering)
    → Denotes lot.quantity (pos q) k
    → Denotes lot.unit_cost (pos u) j
    → Denotes state.remaining (pos n) k
    → compare_decimals lot.quantity state.remaining ≡ ok order
    → Denotes (consumed_text lot state (is_above order)) (pos taken) k
    → taken ≤ q
    → taken ≤ n
    → LotTaken lot state k j q u n taken
unfolding consume_lot
taking lot state k j q u n taken order hq hu hn e d lq ln =
    let consumed = consumed_text lot state (is_above order) in
    let product = multiply-Returns taken u k j d hu in
    let left = subtract_two hn d ln in
    let kept = subtract_two hq d lq in
    record {
      product = product.text;
      kept = kept.text;
      left = left.text;
      returns =
          rw
            (
              e,
              product.returns,
              left.returns,
              kept.returns,
              zero_test lot.quantity consumed kept.text (q - taken) k kept.returns kept.denotes,
            )
            refl;
      product_cost = product.denotes;
      kept_units = kept.denotes;
      left_units = left.denotes;
      left_test =
          zero_test state.remaining consumed left.text (n - taken) k left.returns left.denotes;
    }

-- A round takes the smaller of the lot and what is still asked for.
pub consume_lot-LotTaken :
    (lot : Lot) (state : Consuming) (k j q u n : ℕ)
    → Denotes lot.quantity (pos q) k
    → Denotes lot.unit_cost (pos u) j
    → Denotes state.remaining (pos n) k
    → LotTaken lot state k j q u n (min q n)
consume_lot-LotTaken lot state k j q u n hq hu hn =
    let order = compare_ℤ (pos q) (pos n) in
    let compared = compare-Denotes (pos q) (pos n) k hq hn in
    taking lot state k j q u n (min q n) order hq hu hn compared
      (elim (Bool-cases (ltb n q)) [
        | inl part ↦
            let e : min q n ≡ n = ground arith in
            let f : is_above (compare_ℤ (pos q) (pos n)) ≡ true = ground arith in rw (e, f) hn
        | inr whole ↦
            let e : min q n ≡ q = ground arith in
            let f : is_above (compare_ℤ (pos q) (pos n)) ≡ false = ground arith in rw (e, f) hq
      ])
      (ground arith) (ground arith)
