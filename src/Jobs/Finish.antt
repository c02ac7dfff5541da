-- ===== src/Jobs/Finish.antt =====
-- `finish_job_in_session` and `fail_job_if_active_in_session`: the end of a job.
use tender_phase.Prelude.{ℕ, String, not, Option, none, some, str_eq, ltb, if◌then◌else◌, or_else}
use tender_phase.Clock.{Time}
use tender_phase.Model.{JobStatus, succeeded, partial, CrawlJob, Database, is_final, is_running}
use tender_phase.Session.{final_status_required, Result, ok, raise_if, ◌>>=◌, ◌>>◌}
use tender_phase.Jobs.Rules.{
  ensure_transition, normalize_status, set_payload, set_text, set_message,
}
use tender_phase.Jobs.Lifecycle.{Details, get_job, has_id, update_jobs}

unfoldable pub infer_success_status : CrawlJob → JobStatus
infer_success_status job = if ltb 0 job.metrics.error_count then partial else succeeded

-- `_normalize_status(status) if status else self._infer_success_status(job)`
unfoldable pub target_status : Option String → CrawlJob → Result JobStatus
unfolding infer_success_status
target_status none job = ok (infer_success_status job)
target_status (some s) job =
    if str_eq s "" then ok (infer_success_status job) else normalize_status s

abbrev pub finish_row : Time → JobStatus → Details → CrawlJob → CrawlJob
finish_row now target d j =
    let picked =
      if is_running j.status
      then some (or_else j.picked_at (or_else j.started_at now))
      else j.picked_at in
    record j {
      picked_at = picked;
      started_at = some (or_else j.started_at (or_else picked j.created_at));
      finished_at = some now;
      status = target;
      heartbeat_at = some now;
      timeout_at = none;
      lease_expires_at = none;
      message = set_message d.message j.message;
      job_params_json = set_payload d.job_params_json j.job_params_json;
      runtime_stats_json = set_payload d.runtime_stats_json j.runtime_stats_json;
      failure_reason = set_text d.failure_reason j.failure_reason;
    }

unfoldable pub finish_found :
    ℕ
    → Option String
    → Time
    → Details
    → Database
    → Option CrawlJob
    → Result (Option CrawlJob × Database)
finish_found job_id status now d db none = ok (none, db)
finish_found job_id status now d db (some job) = do
  target ← target_status status job
  raise_if (not (is_final target)) (final_status_required target)
  ensure_transition job.status target
  let change = finish_row now target d
  ok (some (change job), update_jobs (has_id job_id) change db)

unfoldable pub finish_job_in_session :
    (job_id : ℕ) (status : Option String) (finished_at : Option Time) (now : Time)
    → Details
    → Database
    → Result (Option CrawlJob × Database)
finish_job_in_session job_id status finished_at now d db =
    finish_found job_id status (or_else finished_at now) d db (get_job job_id db)

unfoldable pub fail_found :
    ℕ
    → Option Time
    → Time
    → Details
    → Database
    → Option CrawlJob
    → Result (Option CrawlJob × Database)
fail_found job_id finished_at now d db none = ok (none, db)
fail_found job_id finished_at now d db (some job) =
    if is_final job.status
    then ok (some job, db)
    else finish_job_in_session job_id (some "failed") finished_at now d db

unfoldable pub fail_job_if_active_in_session :
    (job_id : ℕ) (finished_at : Option Time) (now : Time)
    → Details
    → Database
    → Result (Option CrawlJob × Database)
fail_job_if_active_in_session job_id finished_at now d db =
    fail_found job_id finished_at now d db (get_job job_id db)
