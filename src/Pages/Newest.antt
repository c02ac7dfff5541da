-- ===== src/Pages/Newest.antt =====
-- The version that a page shows for a raw document is a current one, if there is one.
use tender_phase.Prelude.{
  ℕ, ◌<◌, Bool, true, false, ◌&&◌, some, List, [], ◌∷◌, ◌≡◌, refl, first, count, select, arith,
  Bool-cases, inl, inr,
}
use tender_phase.Table
use tender_phase.Table.{insert_ordered}
use tender_phase.Table.Order.{In, count-In, count-select}
use tender_phase.Crawler.Rows.{Archive}
use tender_phase.Pages.Relations.{Relation, relations, is_of_document, relation_before, related}

both_ways : (b : Bool) → b ≡ true → b ≡ false → ⊥
both_ways b h k = cc

module _ {A : Type 0} (before : A → A → Bool) (q : A → Bool)
    (ahead : (x y : A) → q x ≡ true → q y ≡ false → before x y ≡ true)
    (behind : (x y : A) → q x ≡ false → q y ≡ true → before x y ≡ false) where
  abbrev FirstPasses : List A → Type 0
  FirstPasses xs = (x : A) × (first xs ≡ some x) × (q x ≡ true)

  -- A row that passes comes first if it is put before rows that do not; otherwise it is put behind
  -- one that does.
  insert_passing :
      (x y : A) (ys : List A) → q x ≡ true → FirstPasses (insert_ordered before x (y ∷ ys))
  unfolding insert_ordered
  insert_passing x y ys h = elim (Bool-cases (before x y)) [
    | inl first_of ↦ rw first_of (x, refl, h)
    | inr later ↦ elim (Bool-cases (q y)) [
      | inl hit ↦ rw later (y, refl, hit)
      | inr miss ↦ absurd (both_ways (before x y) (ahead x y h miss) later)
    ]
  ]

  put_first : (x : A) (ys : List A) → q x ≡ true → FirstPasses (insert_ordered before x ys)
  put_first x [] h = unfold insert_ordered in (x, refl, h)
  put_first x (y ∷ ys) h = insert_passing x y ys h

  insert_failing :
      (x : A) (ys : List A)
      → q x ≡ false
      → FirstPasses ys
      → FirstPasses (insert_ordered before x ys)
  unfolding insert_ordered
  insert_failing x [] h (z, none_is, hit) = absurd (cc)
  insert_failing x (y ∷ ys) h (z, is, hit) =
      let same : y ≡ z = cc in
      let own : q y ≡ true = rw same hit in rw (behind x y h own) (y, refl, own)

  order_by-FirstPasses : (xs : List A) → 0 < count q xs → FirstPasses (Table.order_by before xs)
  unfolding Table.order_by
  order_by-FirstPasses [] h = absurd (omega arith)
  order_by-FirstPasses (x ∷ xs) h = elim (Bool-cases (q x)) [
    | inl hit ↦ put_first x (Table.order_by before xs) hit
    | inr miss ↦
        insert_failing x (Table.order_by before xs) miss (order_by-FirstPasses xs (ground arith))
  ]

-- If a raw document belongs to a current version of a notice, then the version that its page and the
-- pages of its errors show is a current one, whatever other versions it belongs to.
pub related_current :
    (k : ℕ) (a : Archive) (r : Relation)
    → In r (relations a.base.sources a.notices a.versions)
    → is_of_document k r ≡ true
    → r.version.is_current ≡ true
    → (shown : Relation) × (related k a ≡ some shown) × (shown.version.is_current ≡ true)
unfolding related
related_current k a r i h current =
    order_by-FirstPasses relation_before (λ s. s.version.is_current) (λ x y hx hy. rw (hx, hy) refl)
      (λ x y hx hy. rw (hx, hy) refl)
      (select (is_of_document k) (relations a.base.sources a.notices a.versions))
      (omega (
        arith,
        count-select (λ s. s.version.is_current) (is_of_document k)
            (relations a.base.sources a.notices a.versions),
        count-In (λ s. is_of_document k s && s.version.is_current) i (rw (h, current) refl),
      ))
