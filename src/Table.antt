-- ===== src/Table.antt =====
-- A table: its rows in a list, read and changed by the statements that the program issues.
pub mod Laws
pub mod One
pub mod Order
pub mod Membership
pub mod Fresh
use tender_phase.Prelude.{
  ℕ, ◌+◌, Bool, true, false, Option, none, some, List, [], ◌∷◌, leb, ltb, ◌==◌, if◌then◌else◌,
  select, first, take, map, arith,
}

module _ {ℓ} {A : Type ℓ} (id : A → ℕ) where
  abbrev pub has_id : ℕ → A → Bool
  has_id k x = id x == k

  -- `session.get(Model, k)`
  unfoldable pub get : ℕ → List A → Option A
  get k [] = none
  get k (x ∷ xs) = if id x == k then some x else get k xs

  -- `SELECT max(id)`, with 0 for an empty table
  unfoldable pub max_id : List A → ℕ
  max_id [] = 0
  max_id (x ∷ xs) = let m = max_id xs in if ltb m (id x) then id x else m

module _ {ℓ} {A : Type ℓ} where
  -- `UPDATE … WHERE test`
  unfoldable pub update_where : (A → Bool) → (A → A) → List A → List A
  update_where test change [] = []
  update_where test change (x ∷ xs) = (if test x then change x else x) ∷ update_where test change xs

  -- A new row is put last.
  unfoldable pub insert : A → List A → List A
  insert r [] = r ∷ []
  insert r (x ∷ xs) = x ∷ insert r xs

module _ {ℓ} {A : Type ℓ} (before : A → A → Bool) where
  unfoldable pub insert_ordered : A → List A → List A
  insert_ordered x [] = x ∷ []
  insert_ordered x (y ∷ ys) = if before x y then x ∷ y ∷ ys else y ∷ insert_ordered x ys

  -- `ORDER BY`; rows that compare equal keep their order
  unfoldable pub order_by : List A → List A
  unfolding insert_ordered
  order_by [] = []
  order_by (x ∷ xs) = insert_ordered x (order_by xs)
