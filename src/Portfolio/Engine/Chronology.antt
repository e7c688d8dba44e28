-- ===== src/Portfolio/Engine/Chronology.antt =====
-- The chronological order of a ledger.
use mathlib.Core.List.{Perm, Mem, mem-cons_self, mem-cons_of_mem}
use mathlib.Core.List.Perm
use nest_backend.Common.{
  ◌≡◌, refl, sym, ap, ◌∙◌, List, [], ◌∷◌, map, All, Option, some, Bool, true, false, if◌then◌else◌,
  arith, Bool-cases, Option-cases, inl, inr,
}
use nest_backend.Common.Int.{◌≤ℤ◌, ℤ, compare_ℤ, eq_of_parts}
use nest_backend.Common.Sort.{
  sort, IsOrdered, sort-perm, sort-IsOrdered, sort_ordered, ordered-eq_of_perm, sort-map,
}
use nest_backend.Common.Text.{Text, text_eq, text_ltb}
use nest_backend.Common.Text.Order.{
  text_ltb_irrefl, text_ltb_asym, text_ltb_trans, text_ltb_antisym, eq_of_text_eq,
}
use nest_backend.Portfolio.Types.{CalculationTransaction}
use nest_backend.Portfolio.Validation.{is_below}
use nest_backend.Portfolio.Holdings.{get_or}
use nest_backend.Portfolio.AverageCost.{is_equal}
use nest_backend.Portfolio.Engine.{Keyed, before, keyed, transaction_of, order_chronologically}

-- The comparator on the two parts of its keys.
abbrev before_at : ℤ → Text → ℤ → Text → Bool
before_at x s y t = if is_equal (compare_ℤ x y) then text_ltb s t else is_below (compare_ℤ x y)

abbrev IsDated : Keyed → Type 0
IsDated entry = (x : ℤ) × (entry.time ≡ some x)

before_dated :
    (a b : Keyed) (x y : ℤ)
    → a.time ≡ some x
    → b.time ≡ some y
    → before a b ≡ before_at x a.id y b.id
before_dated a b x y e f = elim (Bool-cases (text_eq a.id b.id)) [
  | inl same ↦
      let ids = eq_of_text_eq a.id b.id same in
      let none_less : text_ltb a.id b.id ≡ false = rw ids (text_ltb_irrefl b.id) in
      rw (e, f) (ground arith)
  | inr other ↦ rw (e, f) (ground arith)
]

before_at_asym : (x y : ℤ) (s t : Text) → before_at x s y t ≡ true → before_at y t x s ≡ false
before_at_asym x y s t h = ground (arith, text_ltb_asym s t)

before_at_trans :
    (x y z : ℤ) (s t u : Text)
    → before_at y t x s ≡ false
    → before_at z u y t ≡ false
    → before_at z u x s ≡ false
before_at_trans x y z s t u h k = ground (arith, text_ltb_trans s t u)

before_asym : (a b : Keyed) → IsDated a → IsDated b → before a b ≡ true → before b a ≡ false
before_asym a b (x, e) (y, f) h =
    before_dated b a y x f e ∙ before_at_asym x y a.id b.id (sym (before_dated a b x y e f) ∙ h)

before_trans :
    (a b c : Keyed)
    → IsDated a
    → IsDated b
    → IsDated c
    → before b a ≡ false
    → before c b ≡ false
    → before c a ≡ false
before_trans a b c (x, e) (y, f) (z, g) h k =
    before_dated c a z x g e
    ∙ before_at_trans x y z a.id b.id c.id (sym (before_dated b a y x f e) ∙ h)
        (sym (before_dated c b z y g f) ∙ k)

before_irrefl : (a : Keyed) → before a a ≡ false
before_irrefl a = elim (Option-cases a.time) [
  | inl undated ↦ rw undated refl
  | inr (x, e) ↦ before_dated a a x x e e ∙ ground (arith, text_ltb_irrefl a.id)
]

before_at_antisym :
    (x y : ℤ) (s t : Text)
    → before_at x s y t ≡ false
    → before_at y t x s ≡ false
    → (x ≡ y) × (s ≡ t)
before_at_antisym x y s t h k = ground (arith, eq_of_parts x y, text_ltb_antisym s t)

before_antisym :
    (a b : Keyed) (da : IsDated a) (db : IsDated b)
    → before a b ≡ false
    → before b a ≡ false
    → (a.time ≡ b.time) × (a.id ≡ b.id)
before_antisym a b (x, e) (y, f) h k =
    let h' = sym (before_dated a b x y e f) ∙ h in
    let k' = sym (before_dated b a y x f e) ∙ k in
    let (times, ids) = before_at_antisym x y a.id b.id h' k' in (e ∙ ap some times ∙ sym f, ids)

before_at_parts :
    (x y : ℤ) (s t : Text) → before_at y t x s ≡ false → (x ≤ℤ y) × (x ≡ y → text_ltb t s ≡ false)
before_at_parts x y s t h = (
  ground arith,
  λ e.
      let h' = rw e at h in
      let same : is_equal (compare_ℤ y y) ≡ true = ground arith in rw same at h',
)

before_at_of_parts :
    (x y : ℤ) (s t : Text) → x ≤ℤ y → (x ≡ y → text_ltb t s ≡ false) → before_at y t x s ≡ false
before_at_of_parts x y s t le ties = elim (Bool-cases (is_equal (compare_ℤ y x))) [
  | inl same ↦ rw same (ties (eq_of_parts x y (ground arith)))
  | inr other ↦ rw other (ground arith)
]

module _ (date_parse : Text → Option ℤ) where
  -- `t` is ordered in front of `u`.
  abbrev pub earlier : CalculationTransaction → CalculationTransaction → Bool
  earlier t u = before (keyed date_parse t) (keyed date_parse u)

  IsSorted : List CalculationTransaction → Type 0
  IsSorted transactions = IsOrdered earlier transactions

  -- `t` may stand in front of `u`: its instant is no later, and at one instant its identifier is
  -- not greater.
  abbrev pub MayPrecede : CalculationTransaction → CalculationTransaction → Type 0
  MayPrecede t u =
      (x y : ℤ)
      → date_parse t.occurred_at ≡ some x
      → date_parse u.occurred_at ≡ some y
      → (x ≤ℤ y) × (x ≡ y → text_ltb (get_or u.id []) (get_or t.id []) ≡ false)

  -- Each transaction may stand in front of all behind it.
  abbrev pub IsChronological : List CalculationTransaction → Type 0
  IsChronological [] = Unit
  IsChronological (t ∷ transactions) =
      All (MayPrecede t) transactions × IsChronological transactions

  -- The date of each transaction is a date.
  abbrev pub AllDated : List CalculationTransaction → Type 0
  AllDated transactions =
      (t : CalculationTransaction)
      → Mem t transactions
      → (time : ℤ) × (date_parse t.occurred_at ≡ some time)

  earlier-MayPrecede : (t u : CalculationTransaction) → earlier u t ≡ false → MayPrecede t u
  earlier-MayPrecede t u h x y e f =
      before_at_parts x y (get_or t.id []) (get_or u.id [])
        (sym (before_dated (keyed date_parse u) (keyed date_parse t) y x f e) ∙ h)

  MayPrecede-earlier :
      (t u : CalculationTransaction)
      → IsDated (keyed date_parse t)
      → IsDated (keyed date_parse u)
      → MayPrecede t u
      → earlier u t ≡ false
  MayPrecede-earlier t u (x, e) (y, f) h =
      let (le, ties) = h x y e f in
      before_dated (keyed date_parse u) (keyed date_parse t) y x f e
      ∙ before_at_of_parts x y (get_or t.id []) (get_or u.id []) le ties

  IsSorted-IsChronological : (l : List CalculationTransaction) → IsSorted l → IsChronological l
  unfolding IsSorted
  IsSorted-IsChronological [] h = tt
  IsSorted-IsChronological (t ∷ l) h = (behind l h.0, IsSorted-IsChronological l h.1)
    where
      behind :
          (us : List CalculationTransaction)
          → All (λ u. earlier u t ≡ false) us
          → All (MayPrecede t) us
      behind [] k = tt
      behind (u ∷ us) k = (earlier-MayPrecede t u k.0, behind us k.1)

  IsChronological-IsSorted :
      (l : List CalculationTransaction) → AllDated l → IsChronological l → IsSorted l
  unfolding IsSorted
  IsChronological-IsSorted [] dated h = tt
  IsChronological-IsSorted (t ∷ l) dated h = (
    behind (dated t mem-cons_self) l (λ u m. dated u (mem-cons_of_mem t m)) h.0,
    IsChronological-IsSorted l (λ u m. dated u (mem-cons_of_mem t m)) h.1,
  )
    where
      behind :
          IsDated (keyed date_parse t)
          → (us : List CalculationTransaction) → AllDated us
          → All (MayPrecede t) us
          → All (λ u. earlier u t ≡ false) us
      behind dt [] ds k = tt
      behind dt (u ∷ us) ds k = (
        MayPrecede-earlier t u dt (ds u mem-cons_self) k.0,
        behind dt us (λ v m. ds v (mem-cons_of_mem u m)) k.1,
      )

  order_chronologically_lem :
      (transactions : List CalculationTransaction)
      → order_chronologically date_parse transactions ≡ sort earlier transactions
  unfolding order_chronologically
  order_chronologically_lem transactions =
      ap (map transaction_of) (sort-map (keyed date_parse) before transactions)
      ∙ back (sort earlier transactions)
    where
      back : (l : List CalculationTransaction) → map transaction_of (map (keyed date_parse) l) ≡ l
      back [] = refl
      back (t ∷ l) = ap (λ (r : List CalculationTransaction). t ∷ r) (back l)

  All-of_members :
      (transactions : List CalculationTransaction)
      → AllDated transactions
      → All (λ t. IsDated (keyed date_parse t)) transactions
  All-of_members [] h = tt
  All-of_members (t ∷ ts) h =
      (h t mem-cons_self, All-of_members ts (λ u m. h u (mem-cons_of_mem t m)))

  order_chronologically-IsSorted :
      (transactions : List CalculationTransaction)
      → AllDated transactions
      → Perm (order_chronologically date_parse transactions) transactions
        × IsSorted (order_chronologically date_parse transactions)
  unfolding IsSorted
  order_chronologically-IsSorted transactions h =
      let dated = All-of_members transactions h in
      rw (order_chronologically_lem transactions) (
        sort-perm earlier transactions,
        sort-IsOrdered earlier (λ t. IsDated (keyed date_parse t))
            (λ t u. before_asym (keyed date_parse t) (keyed date_parse u))
            (λ t u v. before_trans (keyed date_parse t) (keyed date_parse u) (keyed date_parse v))
            transactions dated,
      )

  -- For dated transactions, orderChronologically returns a permutation of them in which, of any
  -- two, the one behind is not of an earlier instant, and at the same instant its identifier is
  -- not the lesser one.
  pub order_chronologically-IsChronological :
      (transactions : List CalculationTransaction)
      → AllDated transactions
      → Perm (order_chronologically date_parse transactions) transactions
        × IsChronological (order_chronologically date_parse transactions)
  order_chronologically-IsChronological transactions h =
      let (kept, sorted) = order_chronologically-IsSorted transactions h in
      (kept, IsSorted-IsChronological (order_chronologically date_parse transactions) sorted)

  pub order_chronological :
      (transactions : List CalculationTransaction)
      → AllDated transactions
      → IsChronological transactions
      → order_chronologically date_parse transactions ≡ transactions
  unfolding IsSorted
  order_chronological transactions dated h =
      order_chronologically_lem transactions
      ∙ sort_ordered earlier transactions (IsChronological-IsSorted transactions dated h)

  -- The instant and the identifier of a transaction tell it from all others.
  abbrev pub IsKeyed : List CalculationTransaction → Type 0
  IsKeyed transactions =
      (t u : CalculationTransaction)
      → Mem t transactions
      → Mem u transactions
      → date_parse t.occurred_at ≡ date_parse u.occurred_at
      → get_or t.id [] ≡ get_or u.id []
      → t ≡ u

  -- The order of the input does not matter.
  pub order_chronologically-perm :
      (l r : List CalculationTransaction)
      → AllDated l
      → IsKeyed l
      → Perm l r
      → order_chronologically date_parse l ≡ order_chronologically date_parse r
  unfolding IsSorted
  order_chronologically-perm l r dated keyed_apart p =
      let dated_r : AllDated r = λ t m. dated t ((Perm.mem_iff p).1 m) in
      let left = order_chronologically-IsSorted l dated in
      let right = order_chronologically-IsSorted r dated_r in
      let ol = order_chronologically date_parse l in
      let or = order_chronologically date_parse r in
      let in_l = λ (t : CalculationTransaction) (m : Mem t ol). (Perm.mem_iff left.0).0 m in
      ordered-eq_of_perm earlier (λ t. before_irrefl (keyed date_parse t)) ol or
        (λ t u mt mu h k.
          let (times, ids) =
            before_antisym (keyed date_parse t) (keyed date_parse u) (dated t (in_l t mt))
              (dated u (in_l u mu)) h k in
          keyed_apart t u (in_l t mt) (in_l u mu) times ids)
        left.1 right.1 (Perm.trans left.0 (Perm.trans p (Perm.symm right.0)))
