-- ===== src/Table/Order.antt =====
-- Sorting, limiting and row-by-row updates, by how often a test passes.
use tender_phase.Prelude.{
  ℕ, zero, suc, ◌+◌, ◌≤◌, ◌<◌, Bool, true, false, ◌&&◌, ◌||◌, List, [], ◌∷◌, ◌≡◌, refl, ◌==◌,
  if◌then◌else◌, count, select, take, arith, ==_iff, Bool-cases, inl, inr, ap, ◌∙◌,
}
use tender_phase.Table.{has_id, insert_ordered, order_by, update_where}

-- `x` is one of the rows.
pub data In {ℓ} {A : Type ℓ} (x : A) : List A → Type ℓ where
  here : {xs : List A} → In x (x ∷ xs)
  there : {y : A} {xs : List A} → In x xs → In x (y ∷ xs)

module _ {ℓ} {A : Type ℓ} (before : A → A → Bool) (q : A → Bool) where
  count-insert_ordered :
      (x : A) (ys : List A)
      → count q (insert_ordered before x ys) ≡ (if q x then 1 else 0) + count q ys
  unfolding insert_ordered
  count-insert_ordered x [] = refl
  count-insert_ordered x (y ∷ ys) = ground (arith, count-insert_ordered x ys)

  pub count-order_by : (xs : List A) → count q (order_by before xs) ≡ count q xs
  unfolding order_by
  count-order_by [] = refl
  count-order_by (x ∷ xs) =
      omega (arith, count-insert_ordered x (order_by before xs), count-order_by xs)

module _ {ℓ} {A : Type ℓ} (q : A → Bool) where
  pub count-select :
      (p : A → Bool) (xs : List A) → count q (select p xs) ≡ count (λ x. p x && q x) xs
  count-select p [] = refl
  count-select p (x ∷ xs) = ground (arith, count-select p xs)

  pub count-take-le : (n : ℕ) (xs : List A) → count q (take n xs) ≤ count q xs
  count-take-le zero xs = omega arith
  count-take-le (suc n) [] = omega arith
  count-take-le (suc n) (x ∷ xs) = ground (arith, count-take-le n xs)

module _ {ℓ} {A : Type ℓ} where
  -- A row that passes a test is counted.
  pub count-In : (q : A → Bool) {x : A} {xs : List A} → In x xs → q x ≡ true → 0 < count q xs
  count-In q here h = ground arith
  count-In q (there i) h = omega (arith, count-In q i h)

  pub count_none : (p q : A → Bool) (xs : List A) → count q xs ≡ 0 → count (λ y. p y && q y) xs ≡ 0
  count_none p q [] h = refl
  count_none p q (x ∷ xs) h = ground (arith, count_none p q xs)

  pub count_both-le : (p q : A → Bool) (xs : List A) → count (λ y. p y && q y) xs ≤ count q xs
  count_both-le p q [] = omega arith
  count_both-le p q (x ∷ xs) = ground (arith, count_both-le p q xs)

  -- Tests that agree on the rows select the same updates.
  pub update_where-cong :
      (p q : A → Bool) (change : A → A) (xs : List A)
      → ((x : A) → In x xs → p x ≡ q x)
      → update_where p change xs ≡ update_where q change xs
  unfolding update_where
  update_where-cong p q change [] h = refl
  update_where-cong p q change (x ∷ xs) h =
      rw (h x here, update_where-cong p q change xs (λ y i. h y (there i)))

module _ {ℓ} {A : Type ℓ} (id : A → ℕ) where
  -- If the id of a row is its own, the rows of that id that pass a test are that row or none.
  pub count_unique :
      (p : A → Bool) {x : A} {xs : List A}
      → In x xs
      → count (has_id id (id x)) xs ≤ 1
      → count (λ y. p y && has_id id (id x) y) xs ≡ (if p x then 1 else 0)
  count_unique p {x} (here {xs = ys}) h = ground (arith, count_none p (has_id id (id x)) ys)
  count_unique p {x} (there i) h = ground (arith, count_unique p i, count-In (has_id id (id x)) i)

  -- Two updates of rows, the second of ids that the first does not have, are one.
  pub update_where-update_where :
      (k : ℕ) (listed : ℕ → Bool) (change : A → A)
      → ((x : A) → id (change x) ≡ id x)
      → listed k ≡ false
      → (xs : List A)
      → update_where (λ x. listed (id x)) change (update_where (has_id id k) change xs)
        ≡ update_where (λ x. has_id id k x || listed (id x)) change xs
  unfolding update_where
  update_where-update_where k listed change keep free [] = refl
  update_where-update_where k listed change keep free (x ∷ xs) =
      let rest = update_where-update_where k listed change keep free xs in
      elim (Bool-cases (id x == k)) [
        | inl hit ↦
            let fresh : listed (id (change x)) ≡ false =
              ap listed (keep x ∙ (==_iff (id x) k).0 hit) ∙ free in
            rw (hit, fresh, rest)
        | inr miss ↦ rw (miss, rest)
      ]
