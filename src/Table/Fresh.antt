-- ===== src/Table/Fresh.antt =====
-- New rows get ids that no row has.
use tender_phase.Prelude.{
  ℕ, suc, ◌+◌, ◌≤◌, ◌<◌, Bool, true, false, List, [], ◌∷◌, ◌≡◌, refl, ◌==◌, ==_iff, if◌then◌else◌,
  count, All, arith, Bool-cases, inl, inr,
}
use mathlib.Core.Path.{subst}
use tender_phase.Table.{has_id, max_id, insert}
use tender_phase.Table.Laws.{count-insert, get_above_max, count-get}

module _ {ℓ} {A : Type ℓ} (id : A → ℕ) where
  count_below : (n : ℕ) (xs : List A) → All (λ x. id x < n) xs → count (has_id id n) xs ≡ 0
  count_below n [] h = refl
  count_below n (x ∷ xs) h = ground (arith, count_below n xs h.1)

  pub All-below-suc : (n : ℕ) (xs : List A) → All (λ x. id x < n) xs → All (λ x. id x < suc n) xs
  All-below-suc n [] h = tt
  All-below-suc n (x ∷ xs) h = (omega arith, All-below-suc n xs h.1)

  -- The next id, by the greatest one or by a sequence that is ahead of the ids.
  abbrev pub next_id : Bool → ℕ → List A → ℕ
  next_id numbered_here sequence xs = if numbered_here then max_id id xs + 1 else sequence

  pub count-next_id :
      (numbered_here : Bool) (sequence : ℕ) (xs : List A)
      → (numbered_here ≡ false → All (λ x. id x < sequence) xs)
      → count (has_id id (next_id numbered_here sequence xs)) xs ≡ 0
  count-next_id true sequence xs h =
      count-get id (max_id id xs + 1) xs (get_above_max id (max_id id xs + 1) xs (omega arith))
  count-next_id false sequence xs h = count_below sequence xs (h refl)

  pub count_ids-insert :
      (r : A) (xs : List A)
      → count (has_id id (id r)) xs ≡ 0
      → ((k : ℕ) → count (has_id id k) xs ≤ 1)
      → (k : ℕ) → count (has_id id k) (insert r xs) ≤ 1
  count_ids-insert r xs free one k = elim (Bool-cases (id r == k)) [
    | inl hit ↦
        let e : id r ≡ k = (==_iff (id r) k).0 hit in
        let free_k = subst (λ n. count (has_id id n) xs ≡ 0) e free in
        ground (arith, count-insert (has_id id k) r xs, free_k)
    | inr miss ↦ ground (arith, count-insert (has_id id k) r xs, one k)
  ]
