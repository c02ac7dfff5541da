-- ===== src/Health/Streaks.antt =====
-- The latest job of a source, and its failures in a row: two queries that agree.
use tender_phase.Prelude.{
  ℕ, suc, ◌≤◌, ◌<◌, Bool, true, false, not, ◌&&◌, none, some, List, [], ◌∷◌, ◌≡◌, refl, sym, ap,
  ◌∙◌, arith, leb, ltb, ◌==◌, first, take, select, count, if◌then◌else◌, Option-cases, Bool-cases,
  inl, inr,
}
use tender_phase.Model.{JobStatus, pending, running, succeeded, failed, partial, CrawlJob, Database}
use tender_phase.Table
use tender_phase.Table.Order.{In, here, there, count-In, count-order_by, count-select}
use tender_phase.Table.Membership.{In-lowest}
use tender_phase.Jobs.Lifecycle.{has_id}
use tender_phase.Jobs.Creation.{job_id}
use tender_phase.Jobs.Invariant.{IsConsistent}
use tender_phase.Health.Rules.{latest_is}
use tender_phase.Health.Summary.{
  of_source, has_failed, higher_id, latest_job, leading_failures, consecutive_failure_count,
  status_of,
}

-- The id of the first row, 0 if there is none.
abbrev head_id : List CrawlJob → ℕ
head_id [] = 0
head_id (x ∷ xs) = x.id

head_id-insert_ordered :
    (x : CrawlJob) (ys : List CrawlJob)
    → head_id (Table.insert_ordered higher_id x ys)
      ≡ (if ltb (head_id ys) x.id then x.id else head_id ys)
unfolding Table.insert_ordered
head_id-insert_ordered x [] = ground arith
head_id-insert_ordered x (y ∷ ys) = ground arith

-- The first row in descending order of ids has the greatest id.
head_id-order_by :
    (xs : List CrawlJob) → head_id (Table.order_by higher_id xs) ≡ Table.max_id job_id xs
unfolding Table.order_by Table.max_id
head_id-order_by [] = refl
head_id-order_by (x ∷ xs) =
    head_id-insert_ordered x (Table.order_by higher_id xs)
    ∙ ap (λ m. if ltb m x.id then x.id else m) (head_id-order_by xs)

get-In :
    {x : CrawlJob} {xs : List CrawlJob}
    → In x xs
    → count (has_id x.id) xs ≤ 1
    → Table.get job_id x.id xs ≡ some x
unfolding Table.get
get-In {x} (here {xs = ys}) one = ground arith
get-In {x} (there {y = y} i) one = ground (arith, get-In i, count-In (has_id x.id) i)

empty_count : (xs : List CrawlJob) → first xs ≡ none → count (λ j. true) xs ≡ 0
empty_count [] h = refl
empty_count (x ∷ xs) h = absurd (cc)

count_and_true :
    (p : CrawlJob → Bool) (xs : List CrawlJob) → count (λ j. p j && true) xs ≡ count p xs
count_and_true p [] = refl
count_and_true p (x ∷ xs) = ground (arith, count_and_true p xs)

head_of_first : (xs : List CrawlJob) (j : CrawlJob) → first xs ≡ some j → head_id xs ≡ j.id
head_of_first [] j h = absurd (cc)
head_of_first (x ∷ xs) j h = ap (λ o. elim o [ none ↦ 0 | some y ↦ job_id y ]) h

count-first :
    (q : CrawlJob → Bool) (ys : List CrawlJob) (j : CrawlJob)
    → first ys ≡ some j
    → q j ≡ true
    → 0 < count q ys
count-first q [] j h passes = absurd (cc)
count-first q (y ∷ ys) j h passes = grind arith

never_both : (p : CrawlJob → Bool) (xs : List CrawlJob) → count (λ j. p j && not (p j)) xs ≡ 0
never_both p [] = refl
never_both p (x ∷ xs) = ground (arith, never_both p xs)

-- The first of the sorted rows that pass a test passes it.
first_sorted_passes :
    (p : CrawlJob → Bool) (xs : List CrawlJob) (j : CrawlJob)
    → first (Table.order_by higher_id (select p xs)) ≡ some j
    → p j ≡ true
first_sorted_passes p xs j h = elim (Bool-cases (p j)) [
  | inl hit ↦ hit
  | inr miss ↦ absurd (
      omega (
        arith,
        count-first (λ x. not (p x)) (Table.order_by higher_id (select p xs)) j h (ap not miss),
        count-order_by higher_id (λ x. not (p x)) (select p xs),
        count-select (λ x. not (p x)) p xs,
        never_both p xs,
      ))
]

first_of_none :
    (xs : List CrawlJob) → first (Table.order_by higher_id xs) ≡ none → count (λ j. true) xs ≡ 0
first_of_none xs h =
    sym (count-order_by higher_id (λ j. true) xs) ∙ empty_count (Table.order_by higher_id xs) h

latest_row :
    (source_id : ℕ) (db : Database)
    → IsConsistent db
    → latest_job source_id db.jobs
      ≡ first (Table.order_by higher_id (select (of_source source_id) db.jobs))
unfolding latest_job
latest_row source_id db c =
    let mine = select (of_source source_id) db.jobs in
    elim (Option-cases (first (Table.order_by higher_id mine))) [
      | inl empty ↦
          let none_there : (count (of_source source_id) db.jobs == 0) ≡ true = ground (
            arith,
            first_of_none mine empty,
            count-select (λ j. true) (of_source source_id) db.jobs,
            count_and_true (of_source source_id) db.jobs,
          ) in
          rw (empty, none_there)
      | inr (j, found) ↦
          let i = In-lowest higher_id (of_source source_id) db.jobs j found in
          let passes = first_sorted_passes (of_source source_id) db.jobs j found in
          let some_there : (count (of_source source_id) db.jobs == 0) ≡ false =
            ground (arith, count-In (of_source source_id) i passes) in
          let top : j.id ≡ Table.max_id job_id mine =
            sym (head_of_first (Table.order_by higher_id mine) j found) ∙ head_id-order_by mine in
          rw (found, some_there, sym top) (get-In i (c.one_id j.id))
    ]

failed_first :
    (t : JobStatus) (n : ℕ) → leb 1 (if has_failed t then suc n else 0) ≡ latest_is failed (some t)
failed_first failed n = ground arith
failed_first pending n = refl
failed_first running n = refl
failed_first succeeded n = refl
failed_first partial n = refl

failures-first :
    (ys : List CrawlJob)
    → leb 1 (leading_failures (take 10 ys)) ≡ latest_is failed (status_of (first ys))
unfolding leading_failures
failures-first [] = refl
failures-first (y ∷ ys) = failed_first y.status (leading_failures (take 9 ys))

-- With consistent tables, a source has one failure in a row or more exactly if its latest job, the
-- one with the greatest id, has failed.
pub failures_of_latest :
    (source_id : ℕ) (db : Database)
    → IsConsistent db
    → leb 1 (consecutive_failure_count source_id db.jobs)
      ≡ latest_is failed (status_of (latest_job source_id db.jobs))
unfolding consecutive_failure_count
failures_of_latest source_id db c =
    failures-first (Table.order_by higher_id (select (of_source source_id) db.jobs))
    ∙ ap (λ o. latest_is failed (status_of o)) (sym (latest_row source_id db c))
