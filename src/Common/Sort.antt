-- ===== src/Common/Sort.antt =====
-- `Array.prototype.sort`: a stable sort by a comparator, here as insertion from the left. `before x y`
-- is `compare(x, y) < 0`. The laws of the comparator are asked of the items that satisfy `P` only.
use mathlib.Core.Path.{◌≡◌, refl, sym, ap, ap₂, ◌∙◌}
use mathlib.Core.Logic.Or
use mathlib.Core.Bool.{Bool, true, false, Bool-set}
use mathlib.Core.Logic.{inl, inr}
use mathlib.Core.List.{
  List, [], ◌∷◌, ◌++◌, map, Perm, perm_middle, append-nil, append_assoc, Mem, mem-cons, not-mem-nil,
  mem-cons_self, mem-cons_of_mem,
}
use mathlib.Core.List.Perm
use nest_backend.Common.Tests.{if◌then◌else◌, Bool-cases}
use nest_backend.Common.Lists.{All}

module _ {ℓ} {A : Type ℓ} (before : A → A → Bool) where
  -- Behind the items that it does not come before.
  abbrev pub insert_sorted : A → List A → List A
  insert_sorted x [] = x ∷ []
  insert_sorted x (y ∷ ys) = if before x y then x ∷ y ∷ ys else y ∷ insert_sorted x ys

  abbrev pub sort_onto : List A → List A → List A
  sort_onto sorted [] = sorted
  sort_onto sorted (x ∷ xs) = sort_onto (insert_sorted x sorted) xs

  abbrev pub sort : List A → List A
  sort xs = sort_onto [] xs

  -- No item comes before an earlier one.
  abbrev pub IsOrdered : List A → Type ℓ
  IsOrdered [] = Unit
  IsOrdered (x ∷ xs) = All (λ y. before y x ≡ false) xs × IsOrdered xs

module _ {ℓ} {A : Type ℓ} (before : A → A → Bool) where
  insert_sorted-perm : (x : A) (ys : List A) → Perm (insert_sorted before x ys) (x ∷ ys)
  insert_sorted-perm x [] = Perm.refl (x ∷ [])
  insert_sorted-perm x (y ∷ ys) = elim (Bool-cases (before x y)) [
    | inl first ↦ rw first (Perm.refl (x ∷ y ∷ ys))
    | inr later ↦ rw later (Perm.trans (Perm.cons y (insert_sorted-perm x ys)) (Perm.swap x y ys))
  ]

  sort_onto-perm : (sorted xs : List A) → Perm (sort_onto before sorted xs) (sorted ++ xs)
  sort_onto-perm sorted [] = rw (append-nil sorted) (Perm.refl sorted)
  sort_onto-perm sorted (x ∷ xs) = Perm.trans (sort_onto-perm (insert_sorted before x sorted) xs) (
      Perm.trans (Perm.append_right xs (insert_sorted-perm x sorted))
        (Perm.symm (perm_middle sorted xs)))

  -- Sorting loses no item and invents none.
  pub sort-perm : (xs : List A) → Perm (sort before xs) xs
  sort-perm xs = sort_onto-perm [] xs

module _ {ℓ κ} {A : Type ℓ} (P : A → Type κ) (x : A) where
  insert_sorted-All :
      (before : A → A → Bool) (ys : List A) → P x → All P ys → All P (insert_sorted before x ys)
  insert_sorted-All before [] p h = (p, tt)
  insert_sorted-All before (y ∷ ys) p h = elim (Bool-cases (before x y)) [
    | inl first ↦ rw first (p, h)
    | inr later ↦ rw later (h.0, insert_sorted-All before ys p h.1)
  ]

module _ {ℓ κ} {A : Type ℓ} (before : A → A → Bool) (P : A → Type κ)
    (asym : (x y : A) → P x → P y → before x y ≡ true → before y x ≡ false)
    (trans : (x y z : A)
      → P x
      → P y
      → P z
      → before y x ≡ false
      → before z y ≡ false
      → before z x ≡ false) where
  -- What is not before `y` is not before `x`.
  later-All :
      (x y : A) (zs : List A)
      → P x
      → P y
      → All P zs
      → before y x ≡ false
      → All (λ z. before z y ≡ false) zs
      → All (λ z. before z x ≡ false) zs
  later-All x y [] p q ps h hs = tt
  later-All x y (z ∷ zs) p q ps h hs =
      (trans x y z p q ps.0 h hs.0, later-All x y zs p q ps.1 h hs.1)

  insert_sorted-IsOrdered :
      (x : A) (ys : List A)
      → P x
      → All P ys
      → IsOrdered before ys
      → IsOrdered before (insert_sorted before x ys)
  insert_sorted-IsOrdered x [] p ps h = (tt, tt)
  insert_sorted-IsOrdered x (y ∷ ys) p ps h = elim (Bool-cases (before x y)) [
    | inl first ↦
        let behind = asym x y p ps.0 first in
        rw first ((behind, later-All x y ys p ps.0 ps.1 behind h.0), h)
    | inr later ↦ rw later (
      insert_sorted-All (λ z. before z y ≡ false) x before ys later h.0,
      insert_sorted-IsOrdered x ys p ps.1 h.1,
    )
  ]

  sort_onto-IsOrdered :
      (sorted xs : List A)
      → All P sorted
      → All P xs
      → IsOrdered before sorted
      → IsOrdered before (sort_onto before sorted xs)
  sort_onto-IsOrdered sorted [] p q h = h
  sort_onto-IsOrdered sorted (x ∷ xs) p q h =
      sort_onto-IsOrdered (insert_sorted before x sorted) xs
        (insert_sorted-All P x before sorted q.0 p) q.1 (insert_sorted-IsOrdered x sorted q.0 p h)

  pub sort-IsOrdered : (xs : List A) → All P xs → IsOrdered before (sort before xs)
  sort-IsOrdered xs p = sort_onto-IsOrdered [] xs tt p tt

module _ {ℓ} {A : Type ℓ} (before : A → A → Bool) where
  -- An item that comes before none is inserted last.
  insert_last :
      (x : A) (ys : List A)
      → All (λ y. before x y ≡ false) ys
      → insert_sorted before x ys ≡ ys ++ x ∷ []
  insert_last x [] h = refl
  insert_last x (y ∷ ys) h = rw h.0 (ap (λ (l : List A). y ∷ l) (insert_last x ys h.1))

  behind-All :
      (x : A) (ys zs : List A) → IsOrdered before (ys ++ x ∷ zs) → All (λ y. before x y ≡ false) ys
  behind-All x [] zs h = tt
  behind-All x (y ∷ ys) zs h = (first x ys zs (λ z. before z y ≡ false) h.0, behind-All x ys zs h.1)
    where
      first : (x : A) (ys zs : List A) (Q : A → Type 0) → All Q (ys ++ x ∷ zs) → Q x
      first x [] zs Q h = h.0
      first x (y ∷ ys) zs Q h = first x ys zs Q h.1

  sort_onto_ordered :
      (ys xs : List A) → IsOrdered before (ys ++ xs) → sort_onto before ys xs ≡ ys ++ xs
  sort_onto_ordered ys [] h = sym (append-nil ys)
  sort_onto_ordered ys (x ∷ xs) h =
      let e : ys ++ x ∷ xs ≡ (ys ++ x ∷ []) ++ xs = sym (append_assoc ys (x ∷ []) xs) in
      ap (λ (l : List A). sort_onto before l xs) (insert_last x ys (behind-All x ys xs h))
      ∙ sort_onto_ordered (ys ++ x ∷ []) xs (rw e at h)
      ∙ sym e

  -- Sorting an ordered list changes nothing.
  pub sort_ordered : (xs : List A) → IsOrdered before xs → sort before xs ≡ xs
  sort_ordered xs h = sort_onto_ordered [] xs h

-- What no item of a list comes before, no member does.
All-Mem {ℓ} :
    {A : Type ℓ} (t : A → Bool) (x : A) (xs : List A)
    → All (λ y. t y ≡ false) xs
    → Mem x xs
    → t x ≡ false
All-Mem t x [] h m = absurd (not-mem-nil m)
All-Mem t x (y ∷ ys) h m =
    Or.elim (Bool-set (t x) false) (mem-cons.0 m) (λ e. rw e h.0) (All-Mem t x ys h.1)

module _ {ℓ} {A : Type ℓ} (before : A → A → Bool) where
  -- The head of an ordered list comes behind no member.
  head_first :
      (irreflexive : (x : A) → before x x ≡ false) (x y : A) (xs : List A)
      → IsOrdered before (x ∷ xs)
      → Mem y (x ∷ xs)
      → before y x ≡ false
  head_first irreflexive x y xs h m = All-Mem (λ z. before z x) y (x ∷ xs) (irreflexive x, h.0) m

  -- Ordered lists with the same items, which are told apart by the order, are one list.
  pub ordered-eq_of_perm :
      (irreflexive : (x : A) → before x x ≡ false) (l r : List A)
      → ((x y : A) → Mem x l → Mem y l → before x y ≡ false → before y x ≡ false → x ≡ y)
      → IsOrdered before l
      → IsOrdered before r
      → Perm l r
      → l ≡ r
  ordered-eq_of_perm irreflexive [] r same hl hr p = Perm.nil-eq p
  ordered-eq_of_perm irreflexive (a ∷ l) [] same hl hr p = Perm.eq-nil p
  ordered-eq_of_perm irreflexive (a ∷ l) (b ∷ r) same hl hr p =
      let b_in = (Perm.mem_iff p).1 mem-cons_self in
      let a_in = (Perm.mem_iff p).0 mem-cons_self in
      let heads =
        same a b mem-cons_self b_in (head_first irreflexive b a r hr a_in)
          (head_first irreflexive a b l hl b_in) in
      let tails = Perm.cons_inv (Perm.trans p (Perm.symm (Perm.cons' heads Perm.rfl))) in
      ap₂ ◌∷◌ heads (
        ordered-eq_of_perm irreflexive l r
          (λ x y mx my. same x y (mem-cons_of_mem a mx) (mem-cons_of_mem a my)) hl.1 hr.1 tails)

module _ {ℓ κ} {A : Type ℓ} {B : Type κ} (f : A → B) (before : B → B → Bool) where
  insert_sorted-map :
      (x : A) (ys : List A)
      → insert_sorted before (f x) (map f ys)
        ≡ map f (insert_sorted (λ a b. before (f a) (f b)) x ys)
  insert_sorted-map x [] = refl
  insert_sorted-map x (y ∷ ys) = elim (Bool-cases (before (f x) (f y))) [
    | inl first ↦ rw first refl
    | inr later ↦ rw later (ap (λ (l : List B). f y ∷ l) (insert_sorted-map x ys))
  ]

  sort_onto-map :
      (sorted xs : List A)
      → sort_onto before (map f sorted) (map f xs)
        ≡ map f (sort_onto (λ a b. before (f a) (f b)) sorted xs)
  sort_onto-map sorted [] = refl
  sort_onto-map sorted (x ∷ xs) =
      ap (λ (l : List B). sort_onto before l (map f xs)) (insert_sorted-map x sorted)
      ∙ sort_onto-map (insert_sorted (λ a b. before (f a) (f b)) x sorted) xs

  -- Sorting keyed items is sorting by their keys.
  pub sort-map :
      (xs : List A) → sort before (map f xs) ≡ map f (sort (λ a b. before (f a) (f b)) xs)
  sort-map xs = sort_onto-map [] xs
