-- ===== src/Portfolio/LotStore/View.antt =====
-- The lots in the order in which disposals consume them: from the head, or backwards from the end.
use native.Mathlib.Numerals.{add-one}
use mathlib.Core.List.{reverse, reverse-cons}
use nest_backend.Common.{
  Bool-cases, inl, inr, ◌&&◌, leb, ◌*◌, length-drop, ℕ, zero, suc, ◌-◌, ◌<◌, ◌≤◌, ◌≡◌, refl, ◌∙◌,
  ap, List, [], ◌∷◌, ◌++◌, some, Bool, true, false, arith, length, drop, get_elem?, set, drop_last,
  length-append, ltb, if◌then◌else◌,
}
use nest_backend.Portfolio.Types.{Lot}
use nest_backend.Portfolio.LotStore.{
  LotStore, push, has_lots, current_lot, write_lot, discard_lot, to_lots, compact,
  compaction_threshold,
}

abbrev pub PendingIn : Bool → List Lot → ℕ → List Lot → Type 0
PendingIn true lots head pending = (lots ≡ reverse pending) × (head ≡ 0)
PendingIn false lots head pending = (drop head lots ≡ pending) × (head ≤ length lots)

abbrev pub Pending : LotStore → List Lot → Type 0
Pending store pending = PendingIn store.from_back store.lots store.head pending

module _ {ℓ} {A : Type ℓ} where
  drop_lt : (h : ℕ) (xs rest : List A) (x : A) → drop h xs ≡ x ∷ rest → h < length xs
  drop_lt zero [] rest x e = cc
  drop_lt zero (y ∷ xs) rest x e = omega arith
  drop_lt (suc h) [] rest x e = cc
  drop_lt (suc h) (y ∷ xs) rest x e = omega (arith, drop_lt h xs rest x e)

  get_elem?-drop :
      (h : ℕ) (xs rest : List A) (x : A) → drop h xs ≡ x ∷ rest → get_elem? xs h ≡ some x
  get_elem?-drop zero [] rest x e = cc
  get_elem?-drop zero (y ∷ xs) rest x e = cc
  get_elem?-drop (suc h) [] rest x e = cc
  get_elem?-drop (suc h) (y ∷ xs) rest x e = get_elem?-drop h xs rest x e

  drop-set :
      (h : ℕ) (xs rest : List A) (x z : A) → drop h xs ≡ x ∷ rest → drop h (set xs h z) ≡ z ∷ rest
  drop-set zero [] rest x z e = cc
  drop-set zero (y ∷ xs) rest x z e = cc
  drop-set (suc h) [] rest x z e = cc
  drop-set (suc h) (y ∷ xs) rest x z e = drop-set h xs rest x z e

  length-set : (h : ℕ) (xs : List A) (z : A) → length (set xs h z) ≡ length xs
  length-set zero [] z = refl
  length-set zero (y ∷ xs) z = refl
  length-set (suc h) [] z = refl
  length-set (suc h) (y ∷ xs) z = omega (arith, length-set h xs z)

  drop_next : (h : ℕ) (xs rest : List A) (x : A) → drop h xs ≡ x ∷ rest → drop (suc h) xs ≡ rest
  drop_next zero [] rest x e = cc
  drop_next zero (y ∷ xs) rest x e = cc
  drop_next (suc h) [] rest x e = cc
  drop_next (suc h) (y ∷ xs) rest x e = drop_next h xs rest x e

  get_elem?-last : (ys : List A) (x : A) → get_elem? (ys ++ x ∷ []) (length ys) ≡ some x
  get_elem?-last [] x = refl
  get_elem?-last (y ∷ ys) x = get_elem?-last ys x

  set-last : (ys : List A) (x z : A) → set (ys ++ x ∷ []) (length ys) z ≡ ys ++ z ∷ []
  set-last [] x z = refl
  set-last (y ∷ ys) x z = ap (λ (l : List A). y ∷ l) (set-last ys x z)

  drop_last-append : (ys : List A) (x : A) → drop_last (ys ++ x ∷ []) ≡ ys
  drop_last-append [] x = refl
  drop_last-append (y ∷ []) x = refl
  drop_last-append (y ∷ w ∷ ys) x = ap (λ (l : List A). y ∷ l) (drop_last-append (w ∷ ys) x)

-- What the operations of a round see and do when `lot` is next.
pub record Next (store : LotStore) (lot : Lot) (rest : List Lot) : Type 0 where
  pub found : has_lots store ≡ true
  pub read : current_lot store ≡ some lot
  pub written : (lot' : Lot) → Pending (write_lot store lot') (lot' ∷ rest)
  pub discarded : (lot' : Lot) → Pending (discard_lot (write_lot store lot')) rest

front-Next :
    (lots : List Lot) (head : ℕ) (lot : Lot) (rest : List Lot)
    → drop head lots ≡ lot ∷ rest
    → Next (record { from_back = false; lots = lots; head = head }) lot rest
unfolding has_lots current_lot write_lot discard_lot
front-Next lots head lot rest e = record {
  found = ground (arith, drop_lt head lots rest lot e);
  read = get_elem?-drop head lots rest lot e;
  written = λ lot'. (
    drop-set head lots rest lot lot' e,
    omega (arith, drop_lt head lots rest lot e, length-set head lots lot'),
  );
  discarded = λ lot'. (
    rw (add-one head)
        (drop_next head (set lots head lot') rest lot' (drop-set head lots rest lot lot' e)),
    omega (arith, drop_lt head lots rest lot e, length-set head lots lot'),
  );
}

last_index : (ys : List Lot) (lot : Lot) → length (ys ++ lot ∷ []) - 1 ≡ length ys
last_index ys lot = omega (arith, length-append ys (lot ∷ []))

set_current :
    (ys rest : List Lot) (lot lot' : Lot)
    → ys ≡ reverse rest
    → set (ys ++ lot ∷ []) (length (ys ++ lot ∷ []) - 1) lot' ≡ reverse (lot' ∷ rest)
set_current ys rest lot lot' e =
    rw (last_index ys lot, set-last ys lot lot', reverse-cons lot' rest, e)

back_at :
    (ys : List Lot) (lot : Lot) (rest : List Lot)
    → ys ≡ reverse rest
    → Next (record { from_back = true; lots = ys ++ lot ∷ []; head = 0 }) lot rest
unfolding has_lots current_lot write_lot discard_lot
back_at ys lot rest e = record {
  found = ground (arith, length-append ys (lot ∷ []));
  read = rw (last_index ys lot) (get_elem?-last ys lot);
  written = λ lot'. (set_current ys rest lot lot' e, refl);
  discarded = λ lot'. (
    ap drop_last (rw (last_index ys lot) (set-last ys lot lot')) ∙ drop_last-append ys lot' ∙ e,
    refl,
  );
}

back-Next :
    (lots : List Lot) (head : ℕ) (lot : Lot) (rest : List Lot)
    → lots ≡ reverse (lot ∷ rest)
    → head ≡ 0
    → Next (record { from_back = true; lots = lots; head = head }) lot rest
back-Next lots head lot rest e h =
    rw (e ∙ reverse-cons lot rest, h) (back_at (reverse rest) lot rest refl)

Next-in :
    (from_back : Bool) (lots : List Lot) (head : ℕ) (lot : Lot) (rest : List Lot)
    → PendingIn from_back lots head (lot ∷ rest)
    → Next (record { from_back = from_back; lots = lots; head = head }) lot rest
Next-in true lots head lot rest (e, h) = back-Next lots head lot rest e h
Next-in false lots head lot rest (e, h) = front-Next lots head lot rest e

-- A round works on the next lot, whichever end it is at.
pub Pending-Next :
    (store : LotStore) (lot : Lot) (rest : List Lot)
    → Pending store (lot ∷ rest)
    → Next store lot rest
Pending-Next store lot rest p = Next-in store.from_back store.lots store.head lot rest p

drop_all : (h : ℕ) (xs : List Lot) → drop h xs ≡ [] → length xs ≤ h
drop_all h [] e = omega arith
drop_all zero (y ∷ xs) e = cc
drop_all (suc h) (y ∷ xs) e = omega (arith, drop_all h xs e)

none_in :
    (from_back : Bool) (lots : List Lot) (head : ℕ)
    → PendingIn from_back lots head []
    → ltb head (length lots) ≡ false
none_in true lots head (e, h) = rw (e, h) refl
none_in false lots head (e, h) = ground (arith, drop_all head lots e)

pub has_lots-nil : (store : LotStore) → Pending store [] → has_lots store ≡ false
unfolding has_lots
has_lots-nil store p = none_in store.from_back store.lots store.head p

length-reverse : (xs : List Lot) → length (reverse xs) ≡ length xs
length-reverse [] = refl
length-reverse (x ∷ xs) =
    rw (reverse-cons x xs) (omega (arith, length-append (reverse xs) (x ∷ []), length-reverse xs))

length-drop-le : (h : ℕ) (xs : List Lot) → length (drop h xs) ≤ length xs
length-drop-le h xs = omega (arith, length-drop h xs)

length_in :
    (from_back : Bool) (lots pending : List Lot) (head : ℕ)
    → PendingIn from_back lots head pending
    → length pending ≤ length lots
length_in true lots pending head (e, h) = rw e (omega (arith, length-reverse pending))
length_in false lots pending head (e, h) = rw (← e) (length-drop-le head lots)

pub length-Pending :
    (store : LotStore) (pending : List Lot)
    → Pending store pending
    → length pending ≤ length store.lots
length-Pending store pending p = length_in store.from_back store.lots pending store.head p

-- Compaction loses nothing: it drops lots that are consumed.
compact_in :
    (lots pending : List Lot) (head : ℕ)
    → drop head lots ≡ pending
    → head ≤ length lots
    → Pending (compact (record { from_back = false; lots = lots; head = head })) pending
unfolding compact
compact_in lots pending head e h =
    elim (Bool-cases (ltb compaction_threshold head && leb (length lots) (head * 2))) [
      | inl yes_compact ↦ rw yes_compact (e, omega arith)
      | inr as_is ↦ rw as_is (e, h)
    ]

finished_in :
    (from_back : Bool) (lots pending : List Lot) (head : ℕ)
    → PendingIn from_back lots head pending
    → let store : LotStore = record { from_back = from_back; lots = lots; head = head } in
      Pending (if from_back then store else compact store) pending
finished_in true lots pending head p = p
finished_in false lots pending head (e, h) = compact_in lots pending head e h

-- The end of `consume` keeps the lots that are left.
pub finished-Pending :
    (store : LotStore) (pending : List Lot)
    → Pending store pending
    → Pending (if store.from_back then store else compact store) pending
finished-Pending store pending p = finished_in store.from_back store.lots pending store.head p

pub finished-from_back :
    (store : LotStore)
    → (if store.from_back then store else compact store).from_back ≡ store.from_back
unfolding compact
finished-from_back store = ground arith

pub write-from_back :
    (store : LotStore) (lot : Lot) → (write_lot store lot).from_back ≡ store.from_back
unfolding write_lot
write-from_back store lot = refl

pub discard-from_back : (store : LotStore) → (discard_lot store).from_back ≡ store.from_back
unfolding discard_lot
discard-from_back store = ground arith

to_lots_in :
    (from_back : Bool) (lots pending : List Lot) (head : ℕ)
    → PendingIn from_back lots head pending
    → drop head lots ≡ (if from_back then reverse pending else pending)
to_lots_in true lots pending head (e, h) = rw (h, e) refl
to_lots_in false lots pending head (e, h) = e

-- The lots are handed out in the order in which they were acquired.
pub to_lots-Pending :
    (store : LotStore) (pending : List Lot)
    → Pending store pending
    → to_lots store ≡ (if store.from_back then reverse pending else pending)
unfolding to_lots
to_lots-Pending store pending p = to_lots_in store.from_back store.lots pending store.head p

-- Where a pushed lot comes in the order of consumption.
abbrev pub with_lot {ℓ} : {A : Type ℓ} → Bool → A → List A → List A
with_lot true lot pending = lot ∷ pending
with_lot false lot pending = pending ++ lot ∷ []

drop-append : (h : ℕ) (xs ys : List Lot) → h ≤ length xs → drop h (xs ++ ys) ≡ drop h xs ++ ys
drop-append zero xs ys le = refl
drop-append (suc h) [] ys le = absurd (omega arith)
drop-append (suc h) (x ∷ xs) ys le = drop-append h xs ys (omega arith)

push_in :
    (from_back : Bool) (lots pending : List Lot) (head : ℕ) (lot : Lot)
    → PendingIn from_back lots head pending
    → PendingIn from_back (lots ++ lot ∷ []) head (with_lot from_back lot pending)
push_in true lots pending head lot (e, h) = (rw (e, reverse-cons lot pending) refl, h)
push_in false lots pending head lot (e, h) =
    (rw (drop-append head lots (lot ∷ []) h, e) refl, omega (arith, length-append lots (lot ∷ [])))

-- A pushed lot is the last to be consumed from the head, and the first from the back.
pub push-Pending :
    (store : LotStore) (lot : Lot) (pending : List Lot)
    → Pending store pending
    → Pending (push store lot) (with_lot store.from_back lot pending)
unfolding push
push-Pending store lot pending p = push_in store.from_back store.lots pending store.head lot p
