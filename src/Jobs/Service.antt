-- ===== src/Jobs/Service.antt =====
-- The public methods of `CrawlJobService`: each opens a session, runs one operation in it, and
-- commits if that returned a job.
use tender_phase.Prelude.{ℕ, String, Option, none, some, List, [], ◌∷◌, map}
use tender_phase.Prelude.Integers.{ℤ}
use tender_phase.Clock.{Time}
use tender_phase.Payloads.{Payload}
use tender_phase.Model.{JobStatus, JobType, JobMetrics, CrawlJob, Database}
use tender_phase.Session.{Result, ok, err, commit_some}
use tender_phase.Jobs.Rules.{resolve_timeout_at}
use tender_phase.Jobs.Lifecycle.{
  get_job, Details, claim_pending_job_in_session, start_job_in_session, heartbeat_job_in_session,
}
use tender_phase.Jobs.Stats.{MetricDeltas, record_stats_in_session}
use tender_phase.Jobs.Finish.{finish_job_in_session, fail_job_if_active_in_session}
use tender_phase.Jobs.Sweep.{reconcile_expired_jobs_in_session}
use tender_phase.Jobs.Creation.{JobRequest, create_job_in_session}

pub record CrawlJobSnapshot : Type 0 where
  pub id : ℕ
  pub source_site_id : ℕ
  pub job_type : JobType
  pub status : JobStatus
  pub triggered_by : Option String
  pub retry_of_job_id : Option ℕ
  pub queued_at : Option Time
  pub picked_at : Option Time
  pub started_at : Option Time
  pub finished_at : Option Time
  pub heartbeat_at : Option Time
  pub timeout_at : Option Time
  pub lease_expires_at : Option Time
  pub metrics : JobMetrics
  pub job_params_json : Option Payload
  pub runtime_stats_json : Option Payload
  pub failure_reason : Option String
  pub message : Option String

unfoldable pub snapshot : CrawlJob → CrawlJobSnapshot
snapshot job = record {
  id = job.id;
  source_site_id = job.source_site_id;
  job_type = job.job_type;
  status = job.status;
  triggered_by = job.triggered_by;
  retry_of_job_id = job.retry_of_job_id;
  queued_at = job.queued_at;
  picked_at = job.picked_at;
  started_at = job.started_at;
  finished_at = job.finished_at;
  heartbeat_at = job.heartbeat_at;
  timeout_at = resolve_timeout_at job;
  lease_expires_at = job.lease_expires_at;
  metrics = job.metrics;
  job_params_json = job.job_params_json;
  runtime_stats_json = job.runtime_stats_json;
  failure_reason = job.failure_reason;
  message = job.message;
}

-- A public method: the outcome for the caller, and the database that is left.
abbrev pub Method : Type 0 → Type 0
Method A = Database → Result A × Database

-- A creation commits if it did not raise.
abbrev pub commit_created : Result (CrawlJob × Database) → Method CrawlJobSnapshot
commit_created (ok (job, db')) db = (ok (snapshot job), db')
commit_created (err e) db = (err e, db)

unfoldable pub create_job : JobRequest → (now created_at : Time) → Method CrawlJobSnapshot
create_job r now created_at db = commit_created (create_job_in_session r now created_at db) db

unfoldable pub start_job :
    (job_id : ℕ) (started_at : Option Time) (now : Time) (lease_seconds : ℤ)
    → Details
    → Method (Option CrawlJobSnapshot)
start_job job_id started_at now lease_seconds d db =
    commit_some snapshot (start_job_in_session job_id started_at now lease_seconds d db) db

unfoldable pub heartbeat_job :
    (job_id : ℕ) (heartbeat_at : Option Time) (now : Time) (lease_seconds : ℤ)
    → Method (Option CrawlJobSnapshot)
heartbeat_job job_id heartbeat_at now lease_seconds db =
    commit_some snapshot (heartbeat_job_in_session job_id heartbeat_at now lease_seconds db) db

unfoldable pub record_stats : (job_id : ℕ) → MetricDeltas → Method (Option CrawlJobSnapshot)
record_stats job_id a db = commit_some snapshot (record_stats_in_session (some job_id) a db) db

unfoldable pub claim_pending_job :
    (job_id : ℕ) (picked_at : Option Time) (now : Time) (lease_seconds : ℤ)
    → Method (Option CrawlJobSnapshot)
claim_pending_job job_id picked_at now lease_seconds db =
    commit_some snapshot (claim_pending_job_in_session job_id picked_at now lease_seconds db) db

unfoldable pub finish_job :
    (job_id : ℕ) (status : Option String) (finished_at : Option Time) (now : Time)
    → Details
    → Method (Option CrawlJobSnapshot)
finish_job job_id status finished_at now d db =
    commit_some snapshot (finish_job_in_session job_id status finished_at now d db) db

unfoldable pub fail_job_if_active :
    (job_id : ℕ) (finished_at : Option Time) (now : Time)
    → Details
    → Method (Option CrawlJobSnapshot)
fail_job_if_active job_id finished_at now d db =
    commit_some snapshot (fail_job_if_active_in_session job_id finished_at now d db) db

-- `if jobs: session.commit()`
abbrev pub commit_jobs : Result (List CrawlJob × Database) → Method (List CrawlJobSnapshot)
commit_jobs (ok ([], db')) db = (ok [], db)
commit_jobs (ok (j ∷ js, db')) db = (ok (map snapshot (j ∷ js)), db')
commit_jobs (err e) db = (err e, db)

unfoldable pub reconcile_expired_jobs :
    (now : Option Time) (current : Time) (limit : Option ℕ) → Method (List CrawlJobSnapshot)
reconcile_expired_jobs now current limit db =
    commit_jobs (reconcile_expired_jobs_in_session now current limit db) db

unfoldable pub get_job_snapshot : ℕ → Database → Option CrawlJobSnapshot
get_job_snapshot job_id db = elim (get_job job_id db) [ none ↦ none | some j ↦ some (snapshot j) ]
