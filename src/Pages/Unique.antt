-- ===== src/Pages/Unique.antt =====
-- Without duplicates, the list of notices has one row for each key.
use tender_phase.Prelude.{
  ℕ, ◌+◌, ◌≤◌, ◌<◌, String, Bool, true, false, ◌&&◌, Option, none, some, List, [], ◌∷◌, ◌≡◌, refl,
  ap, ◌∙◌, sym, eq_iff, ◌==◌, ltb, first, count, select, map, if◌then◌else◌, arith, Bool-cases, inl,
  inr, Option-cases, ==_iff,
}
use tender_phase.Table
use tender_phase.Table.Order.{In, count-In, count-select, count-order_by}
use tender_phase.Table.Membership.{In-lowest, In-first, In-order_by}
use tender_phase.Pages.NoticeRows.{NoticeRow}
use tender_phase.Pages.Notices.{
  rank_before, same_key, is_first_of_key, is_id_of, with_duplicates, build_list_query,
}

module _ {A : Type 0} where
  count_mono :
      (p q : A → Bool) (xs : List A) → ((x : A) → p x ≡ true → q x ≡ true) → count p xs ≤ count q xs
  count_mono p q [] h = omega arith
  count_mono p q (x ∷ xs) h = elim (Bool-cases (p x)) [
    | inl hit ↦ rw (hit, h x hit) (omega (arith, count_mono p q xs h))
    | inr miss ↦ rw miss (omega (arith, count_mono p q xs h))
  ]

  count-map :
      {B : Type 0} (f : A → B) (q : B → Bool) (xs : List A)
      → count q (map f xs) ≡ count (λ x. q (f x)) xs
  count-map f q [] = refl
  count-map f q (x ∷ xs) = ap (λ n. (if q (f x) then 1 else 0) + n) (count-map f q xs)

  passes_cons :
      (p : A → Bool) (y : A) (zs : List A) {x : A}
      → p y ≡ true
      → (In x zs → p x ≡ true)
      → In x (y ∷ zs)
      → p x ≡ true
  passes_cons p y zs h f In.here = h
  passes_cons p y zs h f (In.there i) = f i

  passes : (p : A → Bool) (xs : List A) {x : A} → In x (select p xs) → p x ≡ true
  passes p [] i = elim i [ ]
  passes p (y ∷ ys) i = elim (Bool-cases (p y)) [
    | inl hit ↦ passes_cons p y (select p ys) hit (passes p ys) (rw hit at i)
    | inr miss ↦ passes p ys (rw miss at i)
  ]

  first-none : (q : A → Bool) (xs : List A) → first xs ≡ none → count q xs ≡ 0
  first-none q [] h = refl
  first-none q (x ∷ xs) h = absurd (cc)

both : (a b : Bool) → (a && b) ≡ true → (a ≡ true) × (b ≡ true)
both true b h = (refl, h)
both false b h = absurd (cc)

abbrev best : String → List NoticeRow → Option NoticeRow
best k rows = first (Table.order_by rank_before (select (same_key k) rows))

-- The first rows of their keys that have the key `k`.
abbrev kept : String → List NoticeRow → NoticeRow → Bool
kept k rows r = is_first_of_key rows r && same_key k r

kept_is_best :
    (k : String) (rows : List NoticeRow) (r : NoticeRow)
    → kept k rows r ≡ true
    → is_id_of (best k rows) r ≡ true
kept_is_best k rows r h =
    let (is_best, key) = both (is_first_of_key rows r) (same_key k r) h in
    let same : r.dedup_key ≡ k = (eq_iff r.dedup_key k).0 key in
    ap (λ j. is_id_of (best j rows) r) (sym same) ∙ is_best

at_most_one :
    (o : Option NoticeRow) (rows : List NoticeRow)
    → ((i : ℕ) → count (λ r. r.id == i) rows ≤ 1)
    → count (is_id_of o) rows ≤ 1
at_most_one (some b) rows h = h b.id
at_most_one none rows h =
    let none_kept = count_mono (is_id_of none) (λ r. r.id == 0) rows (λ r e. absurd (cc)) in
    omega (arith, none_kept, h 0)

is_id_of_self : (b : NoticeRow) → is_id_of (some b) b ≡ true
is_id_of_self b = (==_iff b.id b.id).1 refl

-- If a row has the key, the best of the rows with the key is kept.
best_kept :
    (k : String) (rows : List NoticeRow)
    → 0 < count (same_key k) rows
    → 0 < count (kept k rows) rows
best_kept k rows h = elim (Option-cases (best k rows)) [
  | inl missing ↦
      let gone : count (same_key k) (Table.order_by rank_before (select (same_key k) rows)) ≡ 0 =
        first-none (same_key k) (Table.order_by rank_before (select (same_key k) rows)) missing in
      absurd (
        omega (
          arith,
          h,
          gone,
          count-order_by rank_before (same_key k) (select (same_key k) rows),
          count-select (same_key k) (same_key k) rows,
          count_mono (same_key k) (λ r. same_key k r && same_key k r) rows (λ r e. rw e refl),
        ))
  | inr (b, found) ↦
      let i : In b rows = In-lowest rank_before (same_key k) rows b found in
      let key : same_key k b ≡ true =
        passes (same_key k) rows
          (In-order_by rank_before (select (same_key k) rows) (In-first _ b found)) in
      let same : b.dedup_key ≡ k = (eq_iff b.dedup_key k).0 key in
      count-In (kept k rows) i (rw (key, same, found) (rw (is_id_of_self b) refl))
]

one : (n m : ℕ) → n ≤ 1 → n ≤ m → (0 < m → 0 < n) → n ≡ (if ltb 0 m then 1 else 0)
one n m h k f = elim (Bool-cases (ltb 0 m)) [
  | inl more ↦ rw more (let p : 0 < n = f (ground arith) in omega arith)
  | inr less ↦ rw less (ground arith)
]

-- If the ids of the rows are distinct, then the list without duplicates has exactly one row for a key
-- that a row has, and none for another key.
pub build_list_query_one :
    (rows : List NoticeRow) (k : String)
    → ((i : ℕ) → count (λ r. r.id == i) rows ≤ 1)
    → count (λ item. same_key k item.row) (build_list_query true rows)
      ≡ (if ltb 0 (count (same_key k) rows) then 1 else 0)
unfolding build_list_query
build_list_query_one rows k distinct =
    let counted : count (λ item. same_key k item.row) (build_list_query true rows)
        ≡ count (kept k rows) rows =
      count-map (with_duplicates rows) (λ item. same_key k item.row)
        (select (is_first_of_key rows) rows)
      ∙ count-select (same_key k) (is_first_of_key rows) rows in
    let few = count_mono (kept k rows) (is_id_of (best k rows)) rows (kept_is_best k rows) in
    let keyed =
      count_mono (kept k rows) (same_key k) rows
        (λ r e. (both (is_first_of_key rows r) (same_key k r) e).1) in
    counted
    ∙ one (count (kept k rows) rows) (count (same_key k) rows)
        (omega (arith, few, at_most_one (best k rows) rows distinct)) keyed (best_kept k rows)
