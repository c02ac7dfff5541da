-- ===== src/Jobs/Lifecycle.antt =====
-- The operations of `CrawlJobService` on one job, inside a session.
use tender_phase.Prelude.{
  ℕ, String, Bool, true, false, not, ◌&&◌, ◌||◌, Option, none, some, leb, ◌==◌, if◌then◌else◌,
  or_else, count,
}
use tender_phase.Prelude.Integers.{ℤ}
use tender_phase.Clock.{Time}
use tender_phase.Payloads.{Payload}
use tender_phase.Model.{running, CrawlJob, Database, is_active, is_pending, is_running}
use tender_phase.Table
use tender_phase.Session.{Result, ok, ◌>>=◌}
use tender_phase.Jobs.Rules.{
  calculate_lease_expires_at, resolve_timeout_at, Setting, set_payload, set_text, set_message,
}

abbrev pub get_job : ℕ → Database → Option CrawlJob
get_job job_id db = Table.get (λ (j : CrawlJob). j.id) job_id db.jobs

abbrev pub has_id : ℕ → CrawlJob → Bool
has_id job_id j = j.id == job_id

abbrev pub update_jobs : (CrawlJob → Bool) → (CrawlJob → CrawlJob) → Database → Database
update_jobs test change db = record db { jobs = Table.update_where test change db.jobs }

-- An absent timeout is a lease that does not hold.
abbrev pub lease_over : Time → Option Time → Bool
lease_over moment none = true
lease_over moment (some t) = leb t moment

-- The condition under which a dispatcher may take a pending job.
abbrev pub is_claimable : Time → CrawlJob → Bool
is_claimable moment j =
    is_pending j.status
    && (elim j.picked_at [ none ↦ true | some _ ↦ false ]
        || lease_over moment (resolve_timeout_at j))

abbrev pub claim_row : Time → Time → CrawlJob → CrawlJob
claim_row moment deadline j = record j {
  picked_at = some moment;
  heartbeat_at = some moment;
  timeout_at = some deadline;
  lease_expires_at = some deadline;
}

unfoldable pub claim_pending_job_in_session :
    (job_id : ℕ) (picked_at : Option Time) (now : Time) (lease_seconds : ℤ)
    → Database
    → Result (Option CrawlJob × Database)
claim_pending_job_in_session job_id picked_at now lease_seconds db = do
  let moment = or_else picked_at now
  deadline ← calculate_lease_expires_at moment lease_seconds
  let test = λ (j : CrawlJob). has_id job_id j && is_claimable moment j
  let db' = update_jobs test (claim_row moment deadline) db
  ok (if count test db.jobs == 0 then (none, db) else (get_job job_id db', db'))

-- The keyword arguments of `start_job` and `finish_job` that set columns of the job.
pub record Details : Type 0 where
  pub job_params_json : Setting Payload
  pub runtime_stats_json : Setting Payload
  pub failure_reason : Setting String
  pub message : Option String

abbrev pub start_row : Time → Time → Time → Details → CrawlJob → CrawlJob
start_row moment now deadline d j = record j {
  picked_at = some (or_else j.picked_at moment);
  started_at = some (or_else j.started_at moment);
  finished_at = none;
  status = running;
  heartbeat_at = some now;
  timeout_at = some deadline;
  lease_expires_at = some deadline;
  message = set_message d.message j.message;
  job_params_json = set_payload d.job_params_json j.job_params_json;
  runtime_stats_json = set_payload d.runtime_stats_json j.runtime_stats_json;
  failure_reason = set_text d.failure_reason j.failure_reason;
}

unfoldable pub start_job_in_session :
    (job_id : ℕ) (started_at : Option Time) (now : Time) (lease_seconds : ℤ)
    → Details
    → Database
    → Result (Option CrawlJob × Database)
start_job_in_session job_id started_at now lease_seconds d db = do
  let moment = or_else started_at now
  deadline ← calculate_lease_expires_at now lease_seconds
  let test = λ (j : CrawlJob). has_id job_id j && is_pending j.status
  let db' = update_jobs test (start_row moment now deadline d) db
  ok (if count test db.jobs == 0 then (none, db) else (get_job job_id db', db'))

abbrev pub heartbeat_row : Time → Time → CrawlJob → CrawlJob
heartbeat_row moment deadline j = record j {
  picked_at = some (or_else j.picked_at moment);
  started_at = if is_running j.status then some (or_else j.started_at moment) else j.started_at;
  heartbeat_at = some moment;
  timeout_at = some deadline;
  lease_expires_at = some deadline;
}

unfoldable pub heartbeat_found :
    (job_id : ℕ) (moment : Time) (lease_seconds : ℤ) (db : Database)
    → Option CrawlJob
    → Result (Option CrawlJob × Database)
heartbeat_found job_id moment lease_seconds db none = ok (none, db)
heartbeat_found job_id moment lease_seconds db (some job) =
    if not (is_active job.status) then ok (some job, db) else (do
      deadline ← calculate_lease_expires_at moment lease_seconds
      let change = heartbeat_row moment deadline
      ok (some (change job), update_jobs (has_id job_id) change db))

unfoldable pub heartbeat_job_in_session :
    (job_id : ℕ) (heartbeat_at : Option Time) (now : Time) (lease_seconds : ℤ)
    → Database
    → Result (Option CrawlJob × Database)
heartbeat_job_in_session job_id heartbeat_at now lease_seconds db =
    heartbeat_found job_id (or_else heartbeat_at now) lease_seconds db (get_job job_id db)
