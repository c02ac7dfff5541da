-- ===== src/Health/Summary.antt =====
-- app/services/source_health_service.py: the summary of a source.
use tender_phase.Prelude.{
  ℕ, suc, ◌+◌, String, Bool, true, false, ◌&&◌, ◌||◌, Option, none, some, List, [], ◌∷◌, str_eq,
  leb, ltb, ◌==◌, first, take, select, count, map, or_else, or_option, if◌then◌else◌,
}
use mathlib.Core.Option
use tender_phase.Prelude.Text.{is_blank}
use tender_phase.Clock.{Time, days}
use tender_phase.Model.{
  JobStatus, pending, running, succeeded, failed, partial, JobMetrics, no_metrics, CrawlJob,
  CrawlError, SourceSite, Database,
}
use tender_phase.Table
use tender_phase.Session.{Result, ok, ◌>>=◌}
use tender_phase.Jobs.Sweep.{reconcile_expired_jobs_in_session}
use tender_phase.Jobs.Creation.{source_by_code, job_id}
use tender_phase.Health.Rules.{
  HealthRules, HealthRuleConfig, HealthStatus, normal, warning, critical, get_rules,
  evaluate_health_status,
}

abbrev pub health_status_label : HealthStatus → String
health_status_label normal = "正常"
health_status_label warning = "警告"
health_status_label critical = "异常"

abbrev pub job_status_label : Option JobStatus → String
job_status_label none = "-"
job_status_label (some pending) = "等待中"
job_status_label (some running) = "进行中"
job_status_label (some succeeded) = "成功"
job_status_label (some failed) = "失败"
job_status_label (some partial) = "部分成功"

pub record SourceHealthSummary : Type 0 where
  pub source_id : ℕ
  pub source_code : String
  pub health_status : HealthStatus
  pub health_status_label : String
  pub latest_job_id : Option ℕ
  pub latest_job_status : Option JobStatus
  pub latest_job_status_label : String
  pub latest_job_started_at : Option Time
  pub latest_notices_upserted : ℕ
  pub latest_error_count : ℕ
  pub latest_list_items_seen : ℕ
  pub latest_list_items_unique : ℕ
  pub latest_list_items_source_duplicates_skipped : ℕ
  pub latest_detail_pages_fetched : ℕ
  pub latest_source_duplicates_suppressed : ℕ
  pub recent_7d_job_count : ℕ
  pub recent_7d_failed_count : ℕ
  pub recent_7d_error_count : ℕ
  pub consecutive_failed : Bool
  pub latest_failure_reason : String

abbrev pub of_source : ℕ → CrawlJob → Bool
of_source source_id j = j.source_site_id == source_id

abbrev pub has_failed : JobStatus → Bool
has_failed failed = true
has_failed _ = false

-- `_latest_job_map`: the job with the greatest id of the source
unfoldable pub latest_job : ℕ → List CrawlJob → Option CrawlJob
latest_job source_id jobs =
    if count (of_source source_id) jobs == 0
    then none
    else Table.get job_id (Table.max_id job_id (select (of_source source_id) jobs)) jobs

-- `created_at >= now - timedelta(days=7)`
abbrev pub is_recent : Time → Time → Bool
is_recent now created_at = leb now (created_at + days 7)

abbrev pub recent_job : Time → ℕ → CrawlJob → Bool
recent_job now source_id j = of_source source_id j && is_recent now j.created_at

-- `_recent_7d_job_stats`: the jobs, and those of them that failed
unfoldable pub recent_7d_job_stats : Time → ℕ → List CrawlJob → ℕ × ℕ
recent_7d_job_stats now source_id jobs = (
  count (recent_job now source_id) jobs,
  count (λ j. recent_job now source_id j && has_failed j.status) jobs,
)

unfoldable pub recent_7d_error_count : Time → ℕ → List CrawlError → ℕ
recent_7d_error_count now source_id errors =
    count (λ e. e.source_site_id == source_id && is_recent now e.created_at) errors

abbrev pub later_error : CrawlError → CrawlError → Bool
later_error a b = ltb b.created_at a.created_at || (a.created_at == b.created_at && leb b.id a.id)

-- A text that is not blank.
abbrev pub unless_blank : Option String → Option String
unless_blank none = none
unless_blank (some s) = if is_blank s then none else some s

unfoldable pub latest_error_reason : ℕ → List CrawlError → Option String
latest_error_reason source_id errors = unless_blank (
    Option.map (λ e. e.error_message)
      (first (Table.order_by later_error (select (λ e. e.source_site_id == source_id) errors))))

abbrev pub went_wrong : JobStatus → Bool
went_wrong failed = true
went_wrong partial = true
went_wrong _ = false

-- `coalesce(picked_at, queued_at, started_at, created_at)`
abbrev pub job_moment : CrawlJob → Time
job_moment j = or_else (or_option j.picked_at (or_option j.queued_at j.started_at)) j.created_at

abbrev pub later_job : CrawlJob → CrawlJob → Bool
later_job a b = ltb (job_moment b) (job_moment a) || (job_moment a == job_moment b && leb b.id a.id)

abbrev pub reason_of : Option CrawlJob → Option String
reason_of none = none
reason_of (some j) = j.failure_reason

unfoldable pub latest_failed_job_reason : ℕ → List CrawlJob → Option String
latest_failed_job_reason source_id jobs = unless_blank (
    reason_of (
      first (
        Table.order_by later_job
          (select (λ j. of_source source_id j && went_wrong j.status) jobs))))

abbrev pub higher_id : CrawlJob → CrawlJob → Bool
higher_id a b = leb b.id a.id

-- How many jobs at the head of a list have failed.
unfoldable pub leading_failures : List CrawlJob → ℕ
leading_failures [] = 0
leading_failures (j ∷ js) =
    let rest = leading_failures js in if has_failed j.status then suc rest else 0

unfoldable pub consecutive_failure_count : ℕ → List CrawlJob → ℕ
consecutive_failure_count source_id jobs =
    leading_failures (take 10 (Table.order_by higher_id (select (of_source source_id) jobs)))

-- A text that Python counts as true.
abbrev pub unless_empty : Option String → Option String
unless_empty none = none
unless_empty (some s) = if str_eq s "" then none else some s

abbrev pub message_of : Option CrawlJob → Option String
message_of none = none
message_of (some j) = j.message

unfoldable pub summary_reason : ℕ → List CrawlError → List CrawlJob → Option CrawlJob → String
summary_reason source_id errors jobs latest =
    or_else
      (or_option (latest_error_reason source_id errors) (
        or_option (latest_failed_job_reason source_id jobs)
          (or_option (unless_empty (reason_of latest)) (unless_empty (message_of latest)))))
      "-"

abbrev pub status_of : Option CrawlJob → Option JobStatus
status_of = Option.map (λ j. j.status)

abbrev pub metrics_of : Option CrawlJob → JobMetrics
metrics_of none = no_metrics
metrics_of (some j) = j.metrics

abbrev pub begun_at : Option CrawlJob → Option Time
begun_at none = none
begun_at (some j) = or_option j.picked_at (or_option j.started_at j.queued_at)

-- The body of the loop in `build_health_map`.
unfoldable pub source_summary :
    HealthRules → Time → List CrawlError → List CrawlJob → ℕ × String → SourceHealthSummary
source_summary rules now errors jobs (source_id, source_code) =
    let latest = latest_job source_id jobs in
    let m = metrics_of latest in
    let failures = consecutive_failure_count source_id jobs in
    let (recent_jobs, recent_failed) = recent_7d_job_stats now source_id jobs in
    let recent_errors = recent_7d_error_count now source_id errors in
    let health = evaluate_health_status rules (status_of latest) recent_errors failures in
    record {
      source_id = source_id;
      source_code = source_code;
      health_status = health;
      health_status_label = health_status_label health;
      latest_job_id = Option.map job_id latest;
      latest_job_status = status_of latest;
      latest_job_status_label = job_status_label (status_of latest);
      latest_job_started_at = begun_at latest;
      latest_notices_upserted = m.notices_upserted;
      latest_error_count = m.error_count;
      latest_list_items_seen = m.list_items_seen;
      latest_list_items_unique = m.list_items_unique;
      latest_list_items_source_duplicates_skipped = m.list_items_source_duplicates_skipped;
      latest_detail_pages_fetched = m.detail_pages_fetched;
      latest_source_duplicates_suppressed = m.source_duplicates_suppressed;
      recent_7d_job_count = recent_jobs;
      recent_7d_failed_count = recent_failed;
      recent_7d_error_count = recent_errors;
      consecutive_failed = leb 2 failures;
      latest_failure_reason = summary_reason source_id errors jobs latest;
    }

-- The tables that the health pages use: two of them the call may change.
pub record HealthTables : Type 0 where
  pub database : Database
  pub rules : List HealthRuleConfig
  pub errors : List CrawlError

abbrev pub summaries_of :
    Time → List (ℕ × String) → HealthTables → List SourceHealthSummary × HealthTables
summaries_of now [] t = ([], t)
summaries_of now (s ∷ ss) t =
    let (rules, table) = get_rules t.rules in
    (map (source_summary rules now t.errors t.database.jobs) (s ∷ ss), record t { rules = table })

-- The summaries of sources with distinct ids, in their order. The sweep runs at `now`.
unfoldable pub build_health_map :
    Time → List (ℕ × String) → HealthTables → Result (List SourceHealthSummary × HealthTables)
build_health_map now sources t = do
  (expired, db) ← reconcile_expired_jobs_in_session none now none t.database
  ok (summaries_of now sources (record t { database = db }))

abbrev pub health_of :
    Time → HealthTables → Option SourceSite → Result (Option SourceHealthSummary × HealthTables)
health_of now t none = ok (none, t)
health_of now t (some s) = do
  (summaries, t') ← build_health_map now ((s.id, s.code) ∷ []) t
  ok (first summaries, t')

unfoldable pub get_source_health_by_code :
    Time → String → HealthTables → Result (Option SourceHealthSummary × HealthTables)
get_source_health_by_code now code t = do
  (expired, db) ← reconcile_expired_jobs_in_session none now none t.database
  health_of now (record t { database = db }) (source_by_code code db.sources)
