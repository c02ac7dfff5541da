-- ===== src/Jobs/Starts.antt =====
-- `start_job`: which worker runs a job.
use tender_phase.Prelude.{
  ℕ, ◌+◌, ◌<◌, Bool, true, false, ◌&&◌, Option, none, some, List, ◌≡◌, refl, ◌∙◌, arith, or_else,
  if◌then◌else◌, Bool-cases, Option-cases, inl, inr, ap,
}
use tender_phase.Prelude.Integers.{pos}
use tender_phase.Clock.{Time, seconds}
use tender_phase.Model.{JobStatus, running, CrawlJob, Database, is_pending}
use tender_phase.Session.{ok, commit_some}
use tender_phase.Jobs.Lifecycle.{
  get_job, has_id, update_jobs, Details, start_row, start_job_in_session,
}
use tender_phase.Jobs.Service.{CrawlJobSnapshot, snapshot, start_job}
use tender_phase.Jobs.Guarded.{
  lease_ok, get-guarded_update, guarded_update_found, guarded_update_missing,
  guarded_update_refused,
}
use tender_phase.Jobs.Invariant.{IsConsistent}
use tender_phase.Jobs.History.{
  Call, may_reach, run_call, run_call-Next, run_calls, run_calls-IsConsistent,
  run_calls-IsDescendant,
}

module _ (k : ℕ) (started_at : Option Time) (now : Time) (l : ℕ) (d : Details) (db : Database)
    (c : IsConsistent db) (positive : 0 < l) where
  abbrev started_row : CrawlJob → CrawlJob
  started_row = start_row (or_else started_at now) now (now + seconds l) d

  abbrev may_start : CrawlJob → Bool
  may_start j = is_pending j.status

  start_found :
      (j : CrawlJob)
      → get_job k db ≡ some j
      → is_pending j.status ≡ true
      → start_job k started_at now (pos l) d db ≡ (
        ok (some (snapshot (started_row j))),
        update_jobs (λ x. has_id k x && is_pending x.status) started_row db,
      )
  unfolding start_job start_job_in_session
  start_found j found passes = rw (lease_ok now l positive) (
      ap (λ p. commit_some snapshot (ok p) db)
        (guarded_update_found k may_start started_row db c (λ x. refl) j found passes))

  start_refused :
      (j : CrawlJob)
      → get_job k db ≡ some j
      → is_pending j.status ≡ false
      → start_job k started_at now (pos l) d db ≡ (ok none, db)
  unfolding start_job start_job_in_session
  start_refused j found fails = rw (lease_ok now l positive) (
      ap (λ p. commit_some snapshot (ok p) db)
        (guarded_update_refused k may_start started_row db c (λ x. refl) j found fails))

  start_missing : get_job k db ≡ none → start_job k started_at now (pos l) d db ≡ (ok none, db)
  unfolding start_job start_job_in_session
  start_missing missing = rw (lease_ok now l positive) (
      ap (λ p. commit_some snapshot (ok p) db)
        (guarded_update_missing k may_start started_row db c (λ x. refl) missing))

  start_returned :
      (s : CrawlJobSnapshot)
      → (start_job k started_at now (pos l) d db).0 ≡ ok (some s)
      → (j : CrawlJob) × (get_job k db ≡ some j) × (is_pending j.status ≡ true)
  start_returned s h = elim (Option-cases (get_job k db)) [
    | inl missing ↦ absurd (cc (start_missing missing))
    | inr (j, found) ↦ elim (Bool-cases (is_pending j.status)) [
      | inl passes ↦ (j, found, passes)
      | inr fails ↦ absurd (cc (start_refused j found fails))
    ]
  ]

-- With consistent tables and a lease of a second or more, a start returns the job exactly if it is
-- there and pending; it then runs, with the lease from now on, and keeps earlier times of picking
-- and starting. Otherwise it returns nothing and changes nothing.
pub start_job_lem :
    (k : ℕ) (started_at : Option Time) (now : Time) (l : ℕ) (d : Details) (db : Database)
    → IsConsistent db
    → 0 < l
    → start_job k started_at now (pos l) d db ≡ (elim (get_job k db) [
      | none ↦ (ok none, db)
      | some j ↦
          let row = start_row (or_else started_at now) now (now + seconds l) d in
          if is_pending j.status
          then (
            ok (some (snapshot (row j))),
            update_jobs (λ x. has_id k x && is_pending x.status) row db,
          )
          else (ok none, db)
    ])
start_job_lem k started_at now l d db c positive = elim (Option-cases (get_job k db)) [
  | inl missing ↦ rw missing (start_missing k started_at now l d db c positive missing)
  | inr (j, found) ↦ elim (Bool-cases (is_pending j.status)) [
    | inl passes ↦
        rw (found, passes) (start_found k started_at now l d db c positive j found passes)
    | inr fails ↦ rw (found, fails) (start_refused k started_at now l d db c positive j found fails)
  ]
]

never_pending : (t : JobStatus) → may_reach running t ≡ true → is_pending t ≡ false
never_pending t h = ground arith

-- Once a worker has started a job, no later start of it succeeds, whatever calls come in between:
-- it returns nothing and changes nothing. So a job is run once at most.
pub start_once :
    (k : ℕ) (first second : Option Time) (now now' : Time) (l l' : ℕ) (d d' : Details)
    (calls : List Call) (db : Database) (s : CrawlJobSnapshot)
    → IsConsistent db
    → 0 < l
    → 0 < l'
    → (start_job k first now (pos l) d db).0 ≡ ok (some s)
    → start_job k second now' (pos l') d' (run_calls calls (start_job k first now (pos l) d db).1)
      ≡ (ok none, run_calls calls (start_job k first now (pos l) d db).1)
unfolding run_call
start_once k first second now now' l l' d d' calls db s c p p' h =
    let (j, found, passes) = start_returned k first now l d db c p s h in
    let row = start_row (or_else first now) now (now + seconds l) d in
    let e = start_found k first now l d db c p j found passes in
    let read =
      get-guarded_update k (λ x. is_pending x.status) row db c (λ x. refl) j found passes in
    let db1 = (start_job k first now (pos l) d db).1 in
    let c1 = (run_call-Next (Call.start k first now (pos l) d) db c).0 in
    let (j2, found2, from) =
      run_calls-IsDescendant calls db1 k (row j) c1 (ap (λ r. get_job k r.1) e ∙ read) in
    let reach = from.reachable in
    start_refused k second now' l' d' (run_calls calls db1) (run_calls-IsConsistent calls db1 c1) p'
      j2 found2 (never_pending j2.status reach)
