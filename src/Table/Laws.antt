-- ===== src/Table/Laws.antt =====
-- What a statement leaves of the rows that it does not change.
use tender_phase.Prelude.{
  ℕ, ◌+◌, ◌≤◌, ◌<◌, Bool, true, none, some, List, [], ◌∷◌, ◌≡◌, refl, ◌==◌, if◌then◌else◌, count,
  All, arith, Bool-cases, inl, inr,
}
use mathlib.Core.Option
use mathlib.Core.Option.{some-injective}
use mathlib.Core.Path.{subst}
use tender_phase.Table.{has_id, get, max_id, update_where, insert}

module _ {ℓ} {A : Type ℓ} (id : A → ℕ) where
  pub get-update_where :
      (test : A → Bool) (change : A → A)
      → ((x : A) → id (change x) ≡ id x)
      → (k : ℕ) (xs : List A)
      → get id k (update_where test change xs)
        ≡ Option.map (λ x. if test x then change x else x) (get id k xs)
  unfolding get update_where
  get-update_where test change keep k [] = refl
  get-update_where test change keep k (x ∷ xs) =
      ground (arith, keep x, get-update_where test change keep k xs)

  pub id-get : (k : ℕ) (xs : List A) (x : A) → get id k xs ≡ some x → id x ≡ k
  unfolding get
  id-get k [] x h = cc
  id-get k (y ∷ xs) x h = ground (arith, id-get k xs x)

  pub get-insert :
      (k : ℕ) (r : A) (xs : List A)
      → get id k (insert r xs)
        ≡ (elim (get id k xs) [ none ↦ if id r == k then some r else none | some x ↦ some x ])
  unfolding get insert
  get-insert k r [] = refl
  get-insert k r (x ∷ xs) = ground (arith, get-insert k r xs)

  pub count-get : (k : ℕ) (xs : List A) → get id k xs ≡ none → count (has_id id k) xs ≡ 0
  unfolding get
  count-get k [] h = refl
  count-get k (x ∷ xs) h = ground (arith, count-get k xs)

  -- A number above the greatest id is free.
  pub get_above_max : (k : ℕ) (xs : List A) → max_id id xs < k → get id k xs ≡ none
  unfolding get max_id
  get_above_max k [] h = refl
  get_above_max k (x ∷ xs) h = ground (arith, get_above_max k xs)

module _ {ℓ} {A : Type ℓ} where
  -- If every changed row that passes a test passed it before, no more rows pass it.
  pub count-update_where-le :
      (q test : A → Bool) (change : A → A)
      → ((x : A) → test x ≡ true → q (change x) ≡ true → q x ≡ true)
      → (xs : List A) → count q (update_where test change xs) ≤ count q xs
  unfolding update_where
  count-update_where-le q test change keep [] = omega arith
  count-update_where-le q test change keep (x ∷ xs) =
      ground (arith, keep x, count-update_where-le q test change keep xs)

  pub count-insert :
      (q : A → Bool) (r : A) (xs : List A)
      → count q (insert r xs) ≡ (if q r then 1 else 0) + count q xs
  unfolding insert
  count-insert q r [] = refl
  count-insert q r (x ∷ xs) = omega (arith, count-insert q r xs)

module _ {ℓ κ} {A : Type ℓ} (P : A → Type κ) where
  pub All-update_where :
      (test : A → Bool) (change : A → A)
      → ((x : A) → P x → test x ≡ true → P (change x))
      → (xs : List A) → All P xs
      → All P (update_where test change xs)
  unfolding update_where
  All-update_where test change keep [] h = tt
  All-update_where test change keep (x ∷ xs) (hx, hxs) = elim (Bool-cases (test x)) [
    | inl hit ↦ rw hit (keep x hx hit, All-update_where test change keep xs hxs)
    | inr miss ↦ rw miss (hx, All-update_where test change keep xs hxs)
  ]

  pub All-insert : (r : A) (xs : List A) → P r → All P xs → All P (insert r xs)
  unfolding insert
  All-insert r [] hr h = (hr, tt)
  All-insert r (x ∷ xs) hr (hx, hxs) = (hx, All-insert r xs hr hxs)

  pub All-get : (id : A → ℕ) (k : ℕ) (xs : List A) (x : A) → All P xs → get id k xs ≡ some x → P x
  unfolding get
  All-get id k [] x h e = absurd (cc)
  All-get id k (y ∷ xs) x (hy, hxs) e = elim (Bool-cases (id y == k)) [
    | inl hit ↦ subst P (some-injective y x (rw hit at e)) hy
    | inr miss ↦ All-get id k xs x hxs (rw miss at e)
  ]
