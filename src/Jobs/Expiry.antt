-- ===== src/Jobs/Expiry.antt =====
-- The sweep over expired jobs, row by row, is one UPDATE.
use tender_phase.Prelude.{
  ℕ, ◌+◌, ◌≤◌, Bool, true, ◌&&◌, ◌||◌, not, Option, none, some, List, [], ◌∷◌, ◌≡◌, refl, ltb, ◌==◌,
  if◌then◌else◌, count, select, All, arith, ap, sym, ◌∙◌, or_else, map,
}
use tender_phase.Clock.{Time}
use tender_phase.Model.{failed, CrawlJob, Database, is_running}
use tender_phase.Session.{ok}
use tender_phase.Table
use tender_phase.Table.One.{update_where_none}
use tender_phase.Table.Order.{
  In, count-order_by, count-select, count-take-le, count_both-le, update_where-cong, count_unique,
  update_where-update_where,
}
use tender_phase.Jobs.Rules.{ensure_transition}
use tender_phase.Jobs.Lifecycle.{has_id, update_jobs}
use tender_phase.Jobs.Creation.{job_id}
use tender_phase.Jobs.Sweep.{
  is_expired, expire_row, expires_before, limited, expire_jobs, reconcile_expired_jobs_in_session,
}
use tender_phase.Jobs.Invariant.{IsConsistent}
use tender_phase.Jobs.Updates.{update_jobs-IsConsistent, update_jobs-IsLater}
use tender_phase.Jobs.Rows.{expire_row-IsSuccessor}
use tender_phase.Jobs.Keeps.{Keeps}

le_of_add : (a b : ℕ) → a + b ≤ 1 → b ≤ 1
le_of_add a b h = omega arith

-- The id of one of the jobs.
abbrev pub is_listed : List CrawlJob → ℕ → Bool
is_listed cs k = ltb 0 (count (has_id k) cs)

fail_allowed :
    (j : CrawlJob) → is_running j.status ≡ true → ensure_transition j.status failed ≡ ok tt
unfolding ensure_transition
fail_allowed j h = ground arith

none_listed : (xs : List CrawlJob) → count (λ j. is_listed [] j.id) xs ≡ 0
none_listed [] = refl
none_listed (x ∷ xs) = omega (arith, none_listed xs)

is_listed-cons :
    (c : CrawlJob) (cs : List CrawlJob) (x : CrawlJob)
    → (has_id c.id x || is_listed cs x.id) ≡ is_listed (c ∷ cs) x.id
is_listed-cons c cs x = ground arith

-- The loop over jobs with distinct ids, all running, never raises and does what one UPDATE does.
expire_jobs-eq :
    (now : Time) (cs : List CrawlJob) (db : Database)
    → All (λ c. is_running c.status ≡ true) cs
    → ((k : ℕ) → count (has_id k) cs ≤ 1)
    → expire_jobs now cs db
      ≡ ok (map (expire_row now) cs, update_jobs (λ j. is_listed cs j.id) (expire_row now) db)
unfolding expire_jobs
expire_jobs-eq now [] db running one =
    ap (λ js. ok ([], record db { jobs = js }))
      (sym
        (update_where_none (λ j. is_listed [] j.id) (expire_row now) db.jobs (none_listed db.jobs)))
expire_jobs-eq now (c ∷ cs) db (run, running) one =
    let tail = λ (k : ℕ). le_of_add (if c.id == k then 1 else 0) (count (has_id k) cs) (one k) in
    let merged =
      update_where-update_where job_id c.id (is_listed cs) (expire_row now) (λ x. refl)
        (ground (arith, one c.id)) db.jobs
      ∙ update_where-cong _ _ (expire_row now) db.jobs (λ x i. is_listed-cons c cs x) in
    rw
      (
        fail_allowed c run,
        expire_jobs-eq now cs (update_jobs (has_id c.id) (expire_row now) db) running tail,
      )
      (ap (λ js. ok (expire_row now c ∷ map (expire_row now) cs, record db { jobs = js })) merged)

-- What the query yields.
abbrev pub candidates : Time → Option ℕ → Database → List CrawlJob
candidates moment limit db =
    limited limit (Table.order_by expires_before (select (is_expired moment) db.jobs))

count-candidates-le :
    (q : CrawlJob → Bool) (moment : Time) (limit : Option ℕ) (db : Database)
    → count q (candidates moment limit db) ≤ count (λ j. is_expired moment j && q j) db.jobs
count-candidates-le q moment none db = omega (
  arith,
  count-order_by expires_before q (select (is_expired moment) db.jobs),
  count-select q (is_expired moment) db.jobs,
)
count-candidates-le q moment (some n) db = omega (
  arith,
  count-take-le q n (Table.order_by expires_before (select (is_expired moment) db.jobs)),
  count-order_by expires_before q (select (is_expired moment) db.jobs),
  count-select q (is_expired moment) db.jobs,
)

-- Without a limit every expired job is there.
count-candidates :
    (q : CrawlJob → Bool) (moment : Time) (db : Database)
    → count q (candidates moment none db) ≡ count (λ j. is_expired moment j && q j) db.jobs
count-candidates q moment db =
    count-order_by expires_before q (select (is_expired moment) db.jobs)
    ∙ count-select q (is_expired moment) db.jobs

All-of_count :
    (q : CrawlJob → Bool) (xs : List CrawlJob)
    → count (λ x. not (q x)) xs ≡ 0
    → All (λ x. q x ≡ true) xs
All-of_count q [] h = tt
All-of_count q (x ∷ xs) h = (ground arith, All-of_count q xs (ground arith))

expired_running :
    (moment : Time) (xs : List CrawlJob)
    → count (λ j. is_expired moment j && not (is_running j.status)) xs ≡ 0
expired_running moment [] = refl
expired_running moment (x ∷ xs) = ground (arith, expired_running moment xs)

-- The rows that the sweep changes: those of the candidates.
abbrev pub is_swept : Time → Option ℕ → Database → CrawlJob → Bool
is_swept moment limit db j = is_expired moment j && is_listed (candidates moment limit db) j.id

module _ (moment : Time) (limit : Option ℕ) (db : Database) (c : IsConsistent db) where
  candidates-running : All (λ j. is_running j.status ≡ true) (candidates moment limit db)
  candidates-running =
      All-of_count (λ j. is_running j.status) (candidates moment limit db)
        (omega (
          arith,
          count-candidates-le (λ j. not (is_running j.status)) moment limit db,
          expired_running moment db.jobs,
        ))

  candidates-one_id : (k : ℕ) → count (has_id k) (candidates moment limit db) ≤ 1
  candidates-one_id k = omega (
    arith,
    count-candidates-le (has_id k) moment limit db,
    count_both-le (is_expired moment) (has_id k) db.jobs,
    c.one_id k,
  )

  -- Only expired rows have the id of a candidate.
  listed-swept :
      (x : CrawlJob)
      → In x db.jobs
      → is_listed (candidates moment limit db) x.id ≡ is_swept moment limit db x
  listed-swept x i = ground (
    arith,
    count-candidates-le (has_id x.id) moment limit db,
    count_unique job_id (is_expired moment) i (c.one_id x.id),
  )

  -- The sweep raises nothing, reports the candidates, and is one UPDATE of the swept rows.
  pub expire_candidates-eq :
      expire_jobs moment (candidates moment limit db) db
      ≡ ok (
        map (expire_row moment) (candidates moment limit db),
        update_jobs (is_swept moment limit db) (expire_row moment) db,
      )
  expire_candidates-eq =
      expire_jobs-eq moment (candidates moment limit db) db candidates-running candidates-one_id
      ∙ ap
          (λ js. ok (map (expire_row moment) (candidates moment limit db), record db { jobs = js }))
          (update_where-cong _ _ (expire_row moment) db.jobs listed-swept)

  swept-running : (j : CrawlJob) → is_swept moment limit db j ≡ true → is_running j.status ≡ true
  swept-running j h = ground arith

  expire_candidates-Keeps : Keeps db (expire_jobs moment (candidates moment limit db) db)
  expire_candidates-Keeps = rw expire_candidates-eq (
    update_jobs-IsConsistent (is_swept moment limit db) (expire_row moment)
        (λ j h. expire_row-IsSuccessor moment j (swept-running j h)) (λ j. refl) db c,
    update_jobs-IsLater (is_swept moment limit db) (expire_row moment)
        (λ j h. expire_row-IsSuccessor moment j (swept-running j h)) (λ j. refl) db,
  )

pub reconcile-Keeps :
    (now : Option Time) (current : Time) (limit : Option ℕ) (db : Database)
    → IsConsistent db
    → Keeps db (reconcile_expired_jobs_in_session now current limit db)
unfolding reconcile_expired_jobs_in_session
reconcile-Keeps now current limit db c = expire_candidates-Keeps (or_else now current) limit db c

-- Without a limit the sweep never raises; it reports the expired jobs, ordered by their timeout, as failed, and the
-- table that it leaves is what one UPDATE of the expired rows leaves.
pub reconcile-eq-update :
    (now : Option Time) (current : Time) (db : Database)
    → IsConsistent db
    → reconcile_expired_jobs_in_session now current none db
      ≡ ok (
        map
            (expire_row (or_else now current))
            (Table.order_by expires_before (select (is_expired (or_else now current)) db.jobs)),
        update_jobs (is_expired (or_else now current)) (expire_row (or_else now current)) db,
      )
unfolding reconcile_expired_jobs_in_session
reconcile-eq-update now current db c =
    let moment = or_else now current in
    expire_candidates-eq moment none db c
    ∙ ap (λ js. ok (map (expire_row moment) (candidates moment none db), record db { jobs = js }))
        (update_where-cong _ _ (expire_row moment) db.jobs λ x i. ground (
          arith,
          count-candidates (has_id x.id) moment db,
          count_unique job_id (is_expired moment) i (c.one_id x.id),
        ))
