-- ===== src/Table/One.antt =====
-- An UPDATE of the one row that has a given id.
use tender_phase.Prelude.{
  ℕ, ◌≤◌, Bool, true, ◌&&◌, none, some, List, [], ◌∷◌, ◌≡◌, refl, ◌==◌, if◌then◌else◌, count, All,
  arith, Bool-cases, inl, inr,
}
use mathlib.Core.Option.{some-injective}
use mathlib.Core.Path.{subst, sym}
use tender_phase.Table.{has_id, get, update_where}

module _ {ℓ} {A : Type ℓ} where
  pub update_where_none :
      (test : A → Bool) (change : A → A) (xs : List A)
      → count test xs ≡ 0
      → update_where test change xs ≡ xs
  unfolding update_where
  update_where_none test change [] h = refl
  update_where_none test change (x ∷ xs) h = ground (arith, update_where_none test change xs)

module _ {ℓ} {A : Type ℓ} (id : A → ℕ) (change : A → A) (k : ℕ) where
  -- The row that is found changes, and no other.
  pub count-update_one-le :
      (q : A → Bool) (xs : List A) (j : A)
      → count (has_id id k) xs ≤ 1
      → get id k xs ≡ some j
      → (q (change j) ≡ true → q j ≡ true)
      → count q (update_where (has_id id k) change xs) ≤ count q xs
  unfolding get update_where
  count-update_one-le q [] j one found keep = absurd (cc)
  count-update_one-le q (x ∷ xs) j one found keep =
      ground (arith, update_where_none (has_id id k) change xs, count-update_one-le q xs j)

  pub All-update_one {κ} :
      (P : A → Type κ) (xs : List A) (j : A)
      → count (has_id id k) xs ≤ 1
      → get id k xs ≡ some j
      → P (change j)
      → All P xs
      → All P (update_where (has_id id k) change xs)
  unfolding get update_where
  All-update_one P [] j one found hj h = tt
  All-update_one P (x ∷ xs) j one found hj (hx, hxs) = elim (Bool-cases (id x == k)) [
    | inl hit ↦ rw hit (
      subst (λ y. P (change y)) (sym (some-injective x j (rw hit at found))) hj,
      rw (update_where_none (has_id id k) change xs (ground arith)) hxs,
    )
    | inr miss ↦ rw miss (hx, All-update_one P xs j (ground arith) (rw miss at found) hj hxs)
  ]

module _ {ℓ} {A : Type ℓ} (id : A → ℕ) (k : ℕ) (q : A → Bool) where
  count-and_none :
      (xs : List A) → count (has_id id k) xs ≡ 0 → count (λ x. has_id id k x && q x) xs ≡ 0
  count-and_none [] h = refl
  count-and_none (x ∷ xs) h = ground (arith, count-and_none xs)

  -- With distinct ids, the rows of an id that pass a test are the row that `get` finds, if it does.
  pub count-and-get :
      (xs : List A)
      → count (has_id id k) xs ≤ 1
      → count (λ x. has_id id k x && q x) xs
        ≡ (elim (get id k xs) [ none ↦ 0 | some x ↦ if q x then 1 else 0 ])
  unfolding get
  count-and-get [] one = refl
  count-and-get (x ∷ xs) one = ground (arith, count-and-get xs, count-and_none xs)
