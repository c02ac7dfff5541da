-- ===== src/Pages/Windows.antt =====
-- `list_jobs`: the windows of one list of jobs.
use tender_phase.Prelude.{
  ℕ, zero, suc, ◌+◌, ◌-◌, Bool, true, List, [], ◌∷◌, ◌++◌, ◌≡◌, refl, ap, ◌∙◌, sym, take, count,
  length, map, if◌then◌else◌, ltb, arith,
}
use tender_phase.Model.{Database}
use tender_phase.Table
use tender_phase.Table.Order.{count-order_by}
use tender_phase.Pages.Lists.{drop, page}
use tender_phase.Pages.Jobs.{
  CrawlJobQueryFilters, CrawlJobOrderBy, shown, row_before, build_base_query, list_jobs,
}

module _ {ℓ} {A : Type ℓ} where
  take_nil : (n : ℕ) → take {A = A} n [] ≡ []
  take_nil zero = refl
  take_nil (suc n) = refl

  drop_nil : (n : ℕ) → drop {A = A} n [] ≡ []
  drop_nil zero = refl
  drop_nil (suc n) = refl

  take-drop : (m n : ℕ) (xs : List A) → take (m + n) xs ≡ take m xs ++ take n (drop m xs)
  take-drop zero n xs = ap (λ k. take k xs) (omega arith)
  take-drop (suc m) n [] = let e : suc m + n ≡ suc (m + n) = omega arith in rw e (sym (take_nil n))
  take-drop (suc m) n (x ∷ xs) =
      let e : suc m + n ≡ suc (m + n) = omega arith in rw e (ap (λ r. x ∷ r) (take-drop m n xs))

  drop-drop : (k m : ℕ) (xs : List A) → drop (k + m) xs ≡ drop m (drop k xs)
  drop-drop zero m xs = ap (λ k. drop k xs) (omega arith)
  drop-drop (suc k) m [] = let e : suc k + m ≡ suc (k + m) = omega arith in rw e (sym (drop_nil m))
  drop-drop (suc k) m (x ∷ xs) =
      let e : suc k + m ≡ suc (k + m) = omega arith in rw e (drop-drop k m xs)

  length_all : (xs : List A) → length xs ≡ count (λ x. true) xs
  length_all [] = refl
  length_all (x ∷ xs) = omega (arith, length_all xs)

  length-take :
      (n : ℕ) (xs : List A) → length (take n xs) ≡ (if ltb n (length xs) then n else length xs)
  length-take zero [] = refl
  length-take zero (x ∷ xs) = ground arith
  length-take (suc n) [] = ground arith
  length-take (suc n) (x ∷ xs) = ground (arith, length-take n xs)

  length-drop : (n : ℕ) (xs : List A) → length (drop n xs) ≡ length xs - n
  length-drop zero xs = omega arith
  length-drop (suc n) [] = omega arith
  length-drop (suc n) (x ∷ xs) = omega (arith, length-drop n xs)

module _ {ℓ κ} {A : Type ℓ} {B : Type κ} (f : A → B) where
  map-append : (xs ys : List A) → map f (xs ++ ys) ≡ map f xs ++ map f ys
  map-append [] ys = refl
  map-append (x ∷ xs) ys = ap (λ r. f x ∷ r) (map-append xs ys)

  length-map : (xs : List A) → length (map f xs) ≡ length xs
  length-map [] = refl
  length-map (x ∷ xs) = omega (arith, length-map xs)

module _ {ℓ κ} {A : Type ℓ} {B : Type κ} (f : A → B) (before : A → A → Bool) where
  pub page_adjacent :
      (m n offset : ℕ) (rows : List A)
      → map f (page before (m + n) offset rows)
        ≡ map f (page before m offset rows) ++ map f (page before n (offset + m) rows)
  page_adjacent m n offset rows =
      let sorted = Table.order_by before rows in
      rw (take-drop m n (drop offset sorted), drop-drop offset m sorted)
        (map-append f (take m (drop offset sorted)) (take n (drop m (drop offset sorted))))

  pub length-page :
      (limit offset : ℕ) (rows : List A)
      → length (map f (page before limit offset rows))
        ≡ (if ltb limit (length rows - offset) then limit else length rows - offset)
  length-page limit offset rows =
      let sorted = Table.order_by before rows in
      let all : length sorted ≡ length rows =
        length_all sorted ∙ count-order_by before (λ r. true) rows ∙ sym (length_all rows) in
      rw
        (
          length-map f (take limit (drop offset sorted)),
          length-take limit (drop offset sorted),
          length-drop offset sorted,
          all,
        )
        refl

-- A window has as many jobs as it may, or as the total leaves after its offset if those are fewer.
pub length-list_jobs :
    (f : CrawlJobQueryFilters) (order : CrawlJobOrderBy) (limit offset : ℕ) (db : Database)
    → length (list_jobs f order limit offset db).items ≡ (
        if ltb limit ((list_jobs f order limit offset db).total - offset)
        then limit
        else (list_jobs f order limit offset db).total - offset)
unfolding list_jobs
length-list_jobs f order limit offset db =
    length-page (shown db.jobs) (row_before order) limit offset (build_base_query f db)
