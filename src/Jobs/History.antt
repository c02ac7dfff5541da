-- ===== src/Jobs/History.antt =====
-- Any sequence of calls of the crawl job service, by any number of processes: the transactions
-- follow one another in some order.
use tender_phase.Prelude.{
  ℕ, String, Bool, true, false, Option, none, some, List, [], ◌∷◌, ◌≡◌, refl, ◌∙◌, arith,
}
use tender_phase.Prelude.Integers.{ℤ}
use tender_phase.Clock.{Time}
use tender_phase.Model.{JobStatus, pending, running, succeeded, failed, partial, CrawlJob, Database}
use tender_phase.Session.{Result, ok, err, commit_some}
use tender_phase.Jobs.Lifecycle.{get_job, Details}
use tender_phase.Jobs.Stats.{MetricDeltas}
use tender_phase.Jobs.Creation.{JobRequest}
use tender_phase.Jobs.Service.{
  create_job, start_job, heartbeat_job, record_stats, claim_pending_job, finish_job,
  fail_job_if_active, commit_jobs, commit_created, reconcile_expired_jobs,
}
use tender_phase.Jobs.Invariant.{IsConsistent, IsLater, IsLater-refl, may_become}
use tender_phase.Jobs.Keeps.{Keeps}
use tender_phase.Jobs.Preservation.{
  claim-Keeps, start-Keeps, heartbeat-Keeps, record_stats-Keeps, finish-Keeps, fail-Keeps,
}
use tender_phase.Jobs.Expiry.{reconcile-Keeps}
use tender_phase.Jobs.NewJobs.{create-Keeps}

-- A call of a public method, with its arguments and the readings of the clocks.
pub data Call : Type 0 where
  create : JobRequest → Time → Time → Call
  claim : ℕ → Option Time → Time → ℤ → Call
  start : ℕ → Option Time → Time → ℤ → Details → Call
  heartbeat : ℕ → Option Time → Time → ℤ → Call
  stats : ℕ → MetricDeltas → Call
  finish : ℕ → Option String → Option Time → Time → Details → Call
  fail : ℕ → Option Time → Time → Details → Call
  reconcile : Option Time → Time → Option ℕ → Call

-- The database that a call leaves, whether it returns or raises.
unfoldable pub run_call : Call → Database → Database
run_call (create r now created_at) db = (create_job r now created_at db).1
run_call (claim k picked_at now lease) db = (claim_pending_job k picked_at now lease db).1
run_call (start k started_at now lease d) db = (start_job k started_at now lease d db).1
run_call (heartbeat k at now lease) db = (heartbeat_job k at now lease db).1
run_call (stats k a) db = (record_stats k a db).1
run_call (finish k status finished_at now d) db = (finish_job k status finished_at now d db).1
run_call (fail k finished_at now d) db = (fail_job_if_active k finished_at now d db).1
run_call (reconcile now current limit) db = (reconcile_expired_jobs now current limit db).1

unfoldable pub run_calls : List Call → Database → Database
run_calls [] db = db
run_calls (call ∷ calls) db = run_calls calls (run_call call db)

-- What holds after one transaction.
abbrev pub Next : Database → Database → Type 0
Next db db' = IsConsistent db' × IsLater db db'

same-Next : (db : Database) → IsConsistent db → Next db db
same-Next db c = (c, IsLater-refl db)

commit_some-Next :
    {A B : Type 0} (view : A → B) (db : Database) (r : Result (Option A × Database))
    → IsConsistent db
    → Keeps db r
    → Next db (commit_some view r db).1
commit_some-Next view db (ok (some a, db')) c k = k
commit_some-Next view db (ok (none, db')) c k = same-Next db c
commit_some-Next view db (err e) c k = same-Next db c

commit_jobs-Next :
    (db : Database) (r : Result (List CrawlJob × Database))
    → IsConsistent db
    → Keeps db r
    → Next db (commit_jobs r db).1
commit_jobs-Next db (ok ([], db')) c k = same-Next db c
commit_jobs-Next db (ok (j ∷ js, db')) c k = k
commit_jobs-Next db (err e) c k = same-Next db c

create_result-Next :
    (db : Database) (r : Result (CrawlJob × Database))
    → IsConsistent db
    → Keeps db r
    → Next db (commit_created r db).1
create_result-Next db (ok (job, db')) c k = k
create_result-Next db (err e) c k = same-Next db c

create-Next :
    (r : JobRequest) (now created_at : Time) (db : Database)
    → IsConsistent db
    → Next db (create_job r now created_at db).1
unfolding create_job
create-Next r now created_at db c = create_result-Next db _ c (create-Keeps r now created_at db c)

-- One call, whatever its arguments, keeps the tables consistent, loses no job, and moves each job by at most one move of the
-- state machine.
pub run_call-Next : (call : Call) (db : Database) → IsConsistent db → Next db (run_call call db)
unfolding run_call
run_call-Next (create r now created_at) db c = create-Next r now created_at db c
run_call-Next (claim k picked_at now lease) db c =
    unfold claim_pending_job in commit_some-Next _ db _ c (claim-Keeps k picked_at now lease db c)
run_call-Next (start k started_at now lease d) db c =
    unfold start_job in commit_some-Next _ db _ c (start-Keeps k started_at now lease d db c)
run_call-Next (heartbeat k at now lease) db c =
    unfold heartbeat_job in commit_some-Next _ db _ c (heartbeat-Keeps k at now lease db c)
run_call-Next (stats k a) db c =
    unfold record_stats in commit_some-Next _ db _ c (record_stats-Keeps (some k) a db c)
run_call-Next (finish k status finished_at now d) db c =
    unfold finish_job in commit_some-Next _ db _ c (finish-Keeps k status finished_at now d db c)
run_call-Next (fail k finished_at now d) db c =
    unfold fail_job_if_active in commit_some-Next _ db _ c (fail-Keeps k finished_at now d db c)
run_call-Next (reconcile now current limit) db c =
    unfold reconcile_expired_jobs in
    commit_jobs-Next db _ c (reconcile-Keeps now current limit db c)

-- Whatever the calls, consistent tables stay consistent: job columns agree with the status, ids
-- are distinct, no source has two active jobs and no job two retries, no two sources share a code.
pub run_calls-IsConsistent :
    (calls : List Call) (db : Database) → IsConsistent db → IsConsistent (run_calls calls db)
unfolding run_calls
run_calls-IsConsistent [] db c = c
run_calls-IsConsistent (call ∷ calls) db c =
    run_calls-IsConsistent calls (run_call call db) (run_call-Next call db c).0

-- What a status can be after any number of moves.
abbrev pub may_reach : JobStatus → JobStatus → Bool
may_reach pending t = true
may_reach running pending = false
may_reach running _ = true
may_reach succeeded t = may_become succeeded t
may_reach failed t = may_become failed t
may_reach partial t = may_become partial t

pub may_reach_self : (s : JobStatus) → may_reach s s ≡ true
may_reach_self pending = refl
may_reach_self running = refl
may_reach_self succeeded = refl
may_reach_self failed = refl
may_reach_self partial = refl

may_become-may_reach :
    (s t u : JobStatus) → may_become s t ≡ true → may_reach t u ≡ true → may_reach s u ≡ true
may_become-may_reach pending t u h k = refl
may_become-may_reach running t u h k = ground arith
may_become-may_reach succeeded t u h k = ground arith
may_become-may_reach failed t u h k = ground arith
may_become-may_reach partial t u h k = ground arith

-- What any number of calls may do to a job.
pub record IsDescendant (j j' : CrawlJob) : Type 0 where
  pub same_id : j'.id ≡ j.id
  pub same_source : j'.source_site_id ≡ j.source_site_id
  pub same_type : j'.job_type ≡ j.job_type
  pub same_retry : j'.retry_of_job_id ≡ j.retry_of_job_id
  pub reachable : may_reach j.status j'.status ≡ true

-- Whatever the calls, a job is never lost, keeps its id, source, type and the job that it retries,
-- and its status only advances: a running job never waits again, a finished one keeps its status.
pub run_calls-IsDescendant :
    (calls : List Call) (db : Database) (k : ℕ) (j : CrawlJob)
    → IsConsistent db
    → get_job k db ≡ some j
    → (j' : CrawlJob) × (get_job k (run_calls calls db) ≡ some j') × IsDescendant j j'
unfolding run_calls
run_calls-IsDescendant [] db k j c e = (
  j,
  e,
  record {
    same_id = refl;
    same_source = refl;
    same_type = refl;
    same_retry = refl;
    reachable = may_reach_self j.status;
  },
)
run_calls-IsDescendant (call ∷ calls) db k j c e =
    let (c', later) = run_call-Next call db c in
    let (j1, e1, s1) = later.kept k j e in
    let (j2, e2, s2) = run_calls-IsDescendant calls (run_call call db) k j1 c' e1 in
    (
      j2,
      e2,
      record {
        same_id = s2.same_id ∙ s1.same_id;
        same_source = s2.same_source ∙ s1.same_source;
        same_type = s2.same_type ∙ s1.same_type;
        same_retry = s2.same_retry ∙ s1.same_retry;
        reachable = may_become-may_reach j.status j1.status j2.status s1.allowed s2.reachable;
      },
    )
