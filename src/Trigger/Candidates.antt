-- ===== src/Trigger/Candidates.antt =====
-- The sweep over pending jobs and the claims agree on what may be taken.
use tender_phase.Prelude.{
  ◌≤◌, All, ℕ, zero, suc, Bool, true, some, List, [], ◌∷◌, ◌≡◌, arith, count, select, take,
  Option-cases, inl, inr, Bool-cases,
}
use tender_phase.Clock.{Time}
use tender_phase.Model.{CrawlJob, Database}
use tender_phase.Table
use tender_phase.Table.Order.{In, here, there, count-In}
use tender_phase.Jobs.Lifecycle.{get_job, has_id, is_claimable}
use tender_phase.Jobs.Creation.{job_id}
use tender_phase.Jobs.Invariant.{IsConsistent}
use tender_phase.Trigger.Arguments.{DispatchRequest}
use tender_phase.Trigger.Dispatch.{queued_before, source_of, requests_for, in_join, load_candidates}

get-In :
    {x : CrawlJob} {xs : List CrawlJob}
    → In x xs
    → count (has_id x.id) xs ≤ 1
    → Table.get job_id x.id xs ≡ some x
unfolding Table.get
get-In {x} (here {xs = ys}) one = ground arith
get-In {x} (there {y = y} i) one = ground (arith, get-In i, count-In (has_id x.id) i)

module _ {κ} (P : CrawlJob → Type κ) where
  All-take : (n : ℕ) (xs : List CrawlJob) → All P xs → All P (take n xs)
  All-take zero xs h = tt
  All-take (suc n) [] h = tt
  All-take (suc n) (x ∷ xs) (hx, hxs) = (hx, All-take n xs hxs)

  All-select :
      (p : CrawlJob → Bool) (xs : List CrawlJob)
      → All P xs
      → All (λ x. P x × (p x ≡ true)) (select p xs)
  All-select p [] h = tt
  All-select p (x ∷ xs) (hx, hxs) = elim (Bool-cases (p x)) [
    | inl hit ↦ rw hit ((hx, hit), All-select p xs hxs)
    | inr miss ↦ rw miss (All-select p xs hxs)
  ]

  All-insert_ordered :
      (before : CrawlJob → CrawlJob → Bool) (x : CrawlJob) (ys : List CrawlJob)
      → P x
      → All P ys
      → All P (Table.insert_ordered before x ys)
  unfolding Table.insert_ordered
  All-insert_ordered before x [] hx h = (hx, tt)
  All-insert_ordered before x (y ∷ ys) hx (hy, hys) = elim (Bool-cases (before x y)) [
    | inl first_of ↦ rw first_of (hx, (hy, hys))
    | inr later ↦ rw later (hy, All-insert_ordered before x ys hx hys)
  ]

  All-order_by :
      (before : CrawlJob → CrawlJob → Bool) (xs : List CrawlJob)
      → All P xs
      → All P (Table.order_by before xs)
  unfolding Table.order_by
  All-order_by before [] h = tt
  All-order_by before (x ∷ xs) (hx, hxs) =
      All-insert_ordered before x (Table.order_by before xs) hx (All-order_by before xs hxs)

-- Rows of a part of the table are found in the table.
found_rows :
    (xs ys : List CrawlJob)
    → ((x : CrawlJob) → In x ys → In x xs)
    → ((k : ℕ) → count (has_id k) xs ≤ 1)
    → All (λ x. Table.get job_id x.id xs ≡ some x) ys
found_rows xs [] part one = tt
found_rows xs (y ∷ ys) part one =
    (get-In (part y here) (one y.id), found_rows xs ys (λ x i. part x (there i)) one)

-- What a dispatcher that takes the request at once will find.
pub record IsTakeable (now : Time) (db : Database) (r : DispatchRequest) : Type 0 where
  pub job : CrawlJob
  pub found : get_job r.crawl_job_id db ≡ some job
  pub claimable : is_claimable now job ≡ true

abbrev Waits : Time → Database → CrawlJob → Type 0
Waits now db j = (get_job j.id db ≡ some j) × (in_join now db.sources j ≡ true)

All-requests_for :
    (now : Time) (db : Database) (jobs : List CrawlJob)
    → All (Waits now db) jobs
    → All (IsTakeable now db) (requests_for db.sources jobs)
All-requests_for now db [] h = tt
All-requests_for now db (j ∷ js) ((found, waits), hs) =
    elim (Option-cases (source_of db.sources j)) [
      | inl missing ↦ rw (missing, requests_for) (All-requests_for now db js hs)
      | inr (s, known) ↦
          rw (known, requests_for)
            (
              record { job = j; found = found; claimable = ground arith },
              All-requests_for now db js hs,
            )
    ]

-- Every request that the sweep loads is for a job that a claim at that moment would get: one that
-- is in the table, pending, and not under a lease that holds.
pub load_candidates-IsTakeable :
    (now : Time) (limit : ℕ) (db : Database)
    → IsConsistent db
    → All (IsTakeable now db) (load_candidates now limit db)
unfolding load_candidates
load_candidates-IsTakeable now limit db c =
    let rows = select (in_join now db.sources) db.jobs in
    All-requests_for now db (take limit (Table.order_by queued_before rows)) (
      All-take (Waits now db) limit (Table.order_by queued_before rows) (
        All-order_by (Waits now db) queued_before rows (
          All-select (λ j. get_job j.id db ≡ some j) (in_join now db.sources) db.jobs
            (found_rows db.jobs db.jobs (λ x i. i) c.one_id))))
