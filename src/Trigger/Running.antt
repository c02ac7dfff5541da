-- ===== src/Trigger/Running.antt =====
-- `_run_existing_crawl_job`: a worker starts its job, runs the spider and finishes the job.
use Prim.Native.String.{◌++◌}
use tender_phase.Prelude.{
  ℕ, String, false, not, Option, none, some, List, str_eq, ◌==◌, select, if◌then◌else◌,
}
use tender_phase.Prelude.Integers.{ℤ}
use tender_phase.Prelude.Outcome.{Outcome, returns, raises}
use tender_phase.Clock.{Time}
use tender_phase.Payloads.{Payload, build_runtime_stats_payload, stage_only}
use tender_phase.Model.{
  JobStatus, CrawlJob, CrawlError, SourceSite, Database, status_text, job_type_text,
}
use tender_phase.Session.{Result}
use tender_phase.Jobs.Rules.{set_to, default_running_lease_seconds}
use tender_phase.Jobs.Lifecycle.{get_job, Details}
use tender_phase.Jobs.Service.{CrawlJobSnapshot, snapshot, start_job, finish_job, get_job_snapshot}
use tender_phase.Jobs.History.{Call, run_calls}
use tender_phase.Trigger.Checks.{Checked}
use tender_phase.Trigger.Arguments.{
  SpiderArgs, build_spider_args, build_job_params_json, build_spider_command,
}
use tender_phase.Trigger.Pages.{PageStats, collect_list_page_stats}
use tender_phase.Trigger.Conflicts.{
  TriggerError, job_not_found, source_mismatch, job_type_mismatch, start_conflict, runner_failed,
  service, resolve_spider_name_for_source,
}
use tender_phase.Trigger.Reports.{
  build_final_runtime_stats_json, build_job_summary_message, failure_message, infer_failure_reason,
  infer_final_status, pages_metric, running_message,
}

-- What happens outside of the service during the run: the calls of the job service that heartbeats,
-- the spider and other processes make, how the command ends, and what the spider archived.
pub record Run : Type 0 where
  pub python : String
  pub database_url : String
  pub started_at : Time
  pub meanwhile : List Call
  pub ended : Outcome String ℤ
  pub errors : List CrawlError
  pub metas : List (Option Payload)
  pub finished_at : Time

-- The result of a run: `SourceCrawlTriggerResult`.
pub record TriggerResult : Type 0 where
  pub job : CrawlJobSnapshot
  pub command : List String
  pub return_code : ℤ

abbrev pub Triggered : Type 0
Triggered = Outcome TriggerError TriggerResult × Database

-- The arguments that stay the same through a run.
pub record Setup : Type 0 where
  pub source : SourceSite
  pub crawl_job_id : ℕ
  pub job_type : String
  pub args : SpiderArgs
  pub spider_name : String
  pub run : Run

abbrev pub setup_params : Setup → CrawlJobSnapshot → Payload
setup_params u job =
    build_job_params_json u.source.code u.job_type job.triggered_by u.args job.retry_of_job_id
      (some u.spider_name)

abbrev pub runner_error_details : Setup → CrawlJobSnapshot → String → Details
runner_error_details u job exc =
    let reason = "命令执行失败：" ++ exc in
    record {
      job_params_json = set_to (some (setup_params u job));
      runtime_stats_json = set_to (
          some (
            build_runtime_stats_payload
              (record (stage_only "runner_error") { spider_name = some u.spider_name })));
      failure_reason = set_to (some reason);
      message = some (failure_message u.job_type "runner_error" reason);
    }

-- The runner's exception is raised again once the job has been finished as failed.
abbrev pub fail_run : Setup → String → Result (Option CrawlJobSnapshot) × Database → Triggered
fail_run u exc (raises e, db) = (raises (service e), db)
fail_run u exc (returns none, db) = (raises (job_not_found u.crawl_job_id), db)
fail_run u exc (returns (some s), db) = (raises (runner_failed exc), db)

abbrev pub finish_run :
    Setup → List String → ℤ → Result (Option CrawlJobSnapshot) × Database → Triggered
finish_run u command return_code (raises e, db) = (raises (service e), db)
finish_run u command return_code (returns none, db) = (raises (job_not_found u.crawl_job_id), db)
finish_run u command return_code (returns (some s), db) =
    (returns (record { job = s; command = command; return_code = return_code }), db)

abbrev pub known_reason : String → Option String
known_reason reason = if str_eq reason "-" then none else some reason

abbrev pub final_details :
    Setup → CrawlJobSnapshot → CrawlJobSnapshot → PageStats → ℤ → JobStatus → String → Details
final_details u job now_there pages return_code final_status reason = record {
  job_params_json = set_to (some (setup_params u job));
  runtime_stats_json = set_to (some (build_final_runtime_stats_json now_there pages return_code));
  failure_reason = set_to (known_reason reason);
  message =
      some (build_job_summary_message final_status u.job_type now_there pages return_code reason);
}

abbrev pub job_errors : ℕ → List CrawlError → List CrawlError
job_errors k = select (λ e. elim e.crawl_job_id [ none ↦ false | some i ↦ i == k ])

-- After the command: the job as it now is tells how it went.
unfoldable pub conclude :
    Setup → CrawlJobSnapshot → List String → ℤ → Database → Option CrawlJobSnapshot → Triggered
conclude u job command return_code db none = (raises (job_not_found u.crawl_job_id), db)
conclude u job command return_code db (some now_there) =
    let pages = collect_list_page_stats u.run.metas in
    let reason =
      infer_failure_reason (job_errors u.crawl_job_id u.run.errors) now_there
        (pages_metric pages.pages_scraped now_there) return_code in
    let final_status = infer_final_status now_there reason return_code in
    finish_run u command return_code (
      finish_job u.crawl_job_id (some (status_text final_status)) none u.run.finished_at
        (final_details u job now_there pages return_code final_status reason) db)

abbrev pub after_command :
    Setup → CrawlJobSnapshot → List String → Outcome String ℤ → Database → Triggered
after_command u job command (raises exc) db = fail_run u exc (
    finish_job u.crawl_job_id (some "failed") none u.run.finished_at
      (runner_error_details u job exc) db)
after_command u job command (returns return_code) db =
    conclude u job command return_code db (get_job_snapshot u.crawl_job_id db)

-- The job has been started and committed; what the checks of the command raise leaves it running.
abbrev pub run_command : Setup → CrawlJobSnapshot → Checked (List String) → Database → Triggered
run_command u job (raises e) db = (raises (TriggerError.check e), db)
run_command u job (returns command) db =
    after_command u job command u.run.ended (run_calls u.run.meanwhile db)

abbrev pub conflict_or_gone : ℕ → Option CrawlJob → TriggerError
conflict_or_gone k none = job_not_found k
conflict_or_gone k (some job) = start_conflict k job.status

abbrev pub after_start : Setup → Database → Result (Option CrawlJobSnapshot) × Database → Triggered
after_start u db (raises e, db') = (raises (service e), db')
after_start u db (returns none, db') =
    (raises (conflict_or_gone u.crawl_job_id (get_job u.crawl_job_id db')), db')
after_start u db (returns (some job), db') =
    run_command u job
      (build_spider_command u.run.python u.run.database_url u.spider_name u.crawl_job_id u.args) db'

abbrev pub start_details : Setup → CrawlJob → Details
start_details u job = record {
  job_params_json = set_to (some (setup_params u (snapshot job)));
  runtime_stats_json = set_to (
      some (
        build_runtime_stats_payload
          (record (stage_only "running") { spider_name = some u.spider_name })));
  failure_reason = set_to none;
  message = some (running_message u.job_type u.spider_name u.args);
}

abbrev pub run_found : Setup → Database → Option CrawlJob → Triggered
run_found u db none = (raises (job_not_found u.crawl_job_id), db)
run_found u db (some job) =
    if not (job.source_site_id == u.source.id)
    then (raises (source_mismatch u.crawl_job_id), db)
    else if not (str_eq (job_type_text job.job_type) u.job_type)
    then (raises (job_type_mismatch u.crawl_job_id), db)
    else after_start u db (
        start_job u.crawl_job_id none u.run.started_at default_running_lease_seconds
          (start_details u job) db)

abbrev pub run_with_spider :
    SourceSite → ℕ → String → SpiderArgs → Run → Database → Outcome TriggerError String → Triggered
run_with_spider source k job_type args run db (raises e) = (raises e, db)
run_with_spider source k job_type args run db (returns spider_name) =
    run_found
      (record {
        source = source;
        crawl_job_id = k;
        job_type = job_type;
        args = args;
        spider_name = spider_name;
        run = run;
      })
      db (get_job k db)

unfoldable pub run_existing_crawl_job :
    SourceSite → ℕ → String → SpiderArgs → Run → Database → Triggered
run_existing_crawl_job source k job_type args run db =
    run_with_spider source k job_type args run db
      (resolve_spider_name_for_source source.code job_type)

abbrev pub execute_with : SourceSite → ℕ → String → Checked SpiderArgs → Run → Database → Triggered
execute_with source k job_type (raises e) run db = (raises (TriggerError.check e), db)
execute_with source k job_type (returns args) run db =
    run_existing_crawl_job source k job_type args run db

unfoldable pub execute_crawl_job :
    SourceSite → ℕ → String → Option ℤ → Option ℤ → Run → Database → Triggered
execute_crawl_job source k job_type max_pages backfill_year run db =
    execute_with source k job_type (build_spider_args max_pages backfill_year job_type) run db
