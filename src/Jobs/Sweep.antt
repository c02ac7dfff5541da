-- ===== src/Jobs/Sweep.antt =====
-- `reconcile_expired_jobs_in_session` and `_expire_job`: running jobs whose lease ran out fail.
use Prim.Native.String.{◌++◌}
use tender_phase.Prelude.{
  ℕ, String, Bool, false, ◌&&◌, ◌||◌, Option, none, some, List, [], ◌∷◌, ltb, leb, ◌==◌,
  if◌then◌else◌, or_else, select, take,
}
use tender_phase.Clock.{Time}
use tender_phase.Payloads.{build_runtime_stats_payload, stage_only}
use tender_phase.Model.{JobStatus, failed, CrawlJob, Database, is_pending, is_running, status_text}
use tender_phase.Table
use tender_phase.Session.{Result, ok, ◌>>=◌, ◌>>◌}
use tender_phase.Jobs.Rules.{ensure_transition, resolve_timeout_at}
use tender_phase.Jobs.Lifecycle.{has_id, update_jobs}

unfoldable pub expired_job_failure_reason : JobStatus → String
expired_job_failure_reason stage =
    if is_pending stage then "任务启动超时，后台执行未在租约内启动" else "任务心跳超时，执行进程可能已退出或卡死"

unfoldable pub expired_job_message : JobStatus → String → String
expired_job_message stage failure_reason =
    if is_pending stage then "任务已放弃启动：" ++ failure_reason else "任务执行超时：" ++ failure_reason

abbrev pub expire_row : Time → CrawlJob → CrawlJob
expire_row now j = record j {
  started_at = some (or_else j.started_at (or_else j.picked_at j.created_at));
  finished_at = some now;
  status = failed;
  heartbeat_at = some now;
  timeout_at = none;
  lease_expires_at = none;
  failure_reason = some (expired_job_failure_reason j.status);
  runtime_stats_json = some (
      build_runtime_stats_payload (record (stage_only "expired") {
        timeout_stage = some (status_text j.status);
        heartbeat_at = j.heartbeat_at;
        timeout_at = resolve_timeout_at j;
      }));
  message = some (expired_job_message j.status (expired_job_failure_reason j.status));
}

-- The rows that the query selects.
abbrev pub is_expired : Time → CrawlJob → Bool
is_expired moment j =
    is_running j.status && (elim (resolve_timeout_at j) [ none ↦ false | some t ↦ leb t moment ])

-- `ORDER BY coalesce(timeout_at, lease_expires_at), id`, over rows that have a timeout
abbrev pub expires_before : CrawlJob → CrawlJob → Bool
expires_before a b =
    let ta = or_else (resolve_timeout_at a) 0 in
    let tb = or_else (resolve_timeout_at b) 0 in ltb ta tb || (ta == tb && leb a.id b.id)

abbrev pub limited : Option ℕ → List CrawlJob → List CrawlJob
limited none xs = xs
limited (some n) xs = take n xs

unfoldable pub expire_jobs : Time → List CrawlJob → Database → Result (List CrawlJob × Database)
expire_jobs now [] db = ok ([], db)
expire_jobs now (job ∷ jobs) db =
    let rest = expire_jobs now jobs (update_jobs (has_id job.id) (expire_row now) db) in
    ensure_transition job.status failed >> (rest >>= λ r. ok (expire_row now job ∷ r.0, r.1))

unfoldable pub reconcile_expired_jobs_in_session :
    (now : Option Time) (current : Time) (limit : Option ℕ)
    → Database
    → Result (List CrawlJob × Database)
reconcile_expired_jobs_in_session now current limit db =
    let moment = or_else now current in
    expire_jobs moment
      (limited limit (Table.order_by expires_before (select (is_expired moment) db.jobs))) db
