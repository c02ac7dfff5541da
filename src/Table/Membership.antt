-- ===== src/Table/Membership.antt =====
-- Rows of a table, as members of its list.
use tender_phase.Prelude.{
  ◌+◌, ◌≤◌, Bool, true, none, some, List, [], ◌∷◌, ◌≡◌, refl, count, select, first, arith,
  Bool-cases, inl, inr,
}
use mathlib.Core.Option.{some-injective}
use mathlib.Core.Path.{subst}
use tender_phase.Table.{insert, insert_ordered, order_by, update_where}
use tender_phase.Table.Order.{In, here, there}

module _ {ℓ} {A : Type ℓ} where
  pub count-select-none : (p : A → Bool) (xs : List A) → first (select p xs) ≡ none → count p xs ≡ 0
  count-select-none p [] h = refl
  count-select-none p (x ∷ xs) h = ground (arith, count-select-none p xs)

  pub first_passes :
      (p : A → Bool) (xs : List A) (x : A) → first (select p xs) ≡ some x → p x ≡ true
  first_passes p [] x h = cc
  first_passes p (y ∷ xs) x h = ground (arith, first_passes p xs x)

  In-cons-map :
      {y : A} {xs ys : List A} {x : A} → (In x xs → In x ys) → In x (y ∷ xs) → In x (y ∷ ys)
  In-cons-map f here = here
  In-cons-map f (there i) = there (f i)

  pub In-select : (p : A → Bool) (xs : List A) {x : A} → In x (select p xs) → In x xs
  In-select p [] i = i
  In-select p (y ∷ ys) i = elim (Bool-cases (p y)) [
    | inl hit ↦ In-cons-map (In-select p ys) (rw hit at i)
    | inr miss ↦ there (In-select p ys (rw miss at i))
  ]

  pub In-first : (xs : List A) (x : A) → first xs ≡ some x → In x xs
  In-first [] x h = absurd (cc)
  In-first (y ∷ xs) x h = subst (λ z. In z (y ∷ xs)) (some-injective y x h) here

  In-swap : {x y z : A} {xs : List A} → In x (z ∷ y ∷ xs) → In x (y ∷ z ∷ xs)
  In-swap here = there here
  In-swap (there here) = here
  In-swap (there (there i)) = there (there i)

  In-insert_ordered :
      (before : A → A → Bool) (y : A) (ys : List A) {x : A}
      → In x (insert_ordered before y ys)
      → In x (y ∷ ys)
  unfolding insert_ordered
  In-insert_ordered before y [] i = i
  In-insert_ordered before y (z ∷ ys) i = elim (Bool-cases (before y z)) [
    | inl first_of ↦ rw first_of at i
    | inr later ↦ In-swap (In-cons-map (In-insert_ordered before y ys) (rw later at i))
  ]

  pub In-order_by :
      (before : A → A → Bool) (xs : List A) {x : A} → In x (order_by before xs) → In x xs
  unfolding order_by
  In-order_by before [] i = i
  In-order_by before (y ∷ ys) i =
      In-cons-map (In-order_by before ys) (In-insert_ordered before y (order_by before ys) i)

  -- The first of the sorted rows that pass a test is one of the rows.
  pub In-lowest :
      (before : A → A → Bool) (p : A → Bool) (xs : List A) (x : A)
      → first (order_by before (select p xs)) ≡ some x
      → In x xs
  In-lowest before p xs x h = In-select p xs (In-order_by before (select p xs) (In-first _ x h))

  pub In-selected : (p : A → Bool) (xs : List A) (x : A) → first (select p xs) ≡ some x → In x xs
  In-selected p xs x h = In-select p xs (In-first _ x h)

  -- A row that an UPDATE changes is in the table afterwards as it was changed.
  pub In-update_where :
      (test : A → Bool) (change : A → A) {x : A} {xs : List A}
      → In x xs
      → test x ≡ true
      → In (change x) (update_where test change xs)
  unfolding update_where
  In-update_where test change here h = rw h here
  In-update_where test change (there i) h = there (In-update_where test change i h)

  -- An UPDATE adds to the rows that pass a test no more than those that it changes.
  pub count-update_where-le-add :
      (q test : A → Bool) (change : A → A) (xs : List A)
      → count q (update_where test change xs) ≤ count q xs + count test xs
  unfolding update_where
  count-update_where-le-add q test change [] = omega arith
  count-update_where-le-add q test change (x ∷ xs) =
      ground (arith, count-update_where-le-add q test change xs)

  pub In-insert : (r : A) (xs : List A) → In r (insert r xs)
  unfolding insert
  In-insert r [] = here
  In-insert r (x ∷ xs) = there (In-insert r xs)
