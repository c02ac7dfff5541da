-- ===== src/Trigger/Requests.antt =====
-- `SourceCrawlTriggerService`: jobs that are asked for, and the conflicts in the way.
use Prim.Native.String.{◌++◌}
use tender_phase.Prelude.{
  ℕ, zero, String, Bool, true, false, not, Option, none, some, if◌then◌else◌,
}
use tender_phase.Prelude.Integers.{ℤ, pos, less}
use tender_phase.Prelude.Decimal.{print_int}
use tender_phase.Prelude.Outcome.{Outcome, returns, raises}
use tender_phase.Clock.{Time}
use tender_phase.Payloads.{build_runtime_stats_payload, stage_only, read_payload_int}
use tender_phase.Model.{JobStatus, failed, partial, CrawlJob, SourceSite, Database}
use tender_phase.Table
use tender_phase.Jobs.Lifecycle.{get_job}
use tender_phase.Jobs.Creation.{JobRequest, source_id}
use tender_phase.Jobs.Service.{CrawlJobSnapshot}
use tender_phase.Trigger.Checks.{Checked, backfill_year_too_small}
use tender_phase.Trigger.Arguments.{
  SpiderArgs, build_spider_args, spider_int, build_job_params_json, DispatchRequest,
}
use tender_phase.Trigger.Dispatch.{Dispatcher}
use tender_phase.Trigger.Conflicts.{
  TriggerError, build_retry_conflict, check, create_crawl_job, job_to_retry_not_found,
  load_retry_job_for_original_job, only_failed_or_partial, retry_of_a_retry, source_not_found,
}

abbrev pub number_part : String → Option ℤ → String
number_part label none = ""
number_part label (some n) = "，" ++ (label ++ print_int n)

abbrev pub arguments_text : SpiderArgs → String
arguments_text args =
    number_part "最大页数 " (spider_int args "max_pages")
    ++ number_part "回填年份 " (spider_int args "backfill_year")

unfoldable pub build_queued_job_message : String → SpiderArgs → String
build_queued_job_message job_type args = job_type ++ (" 任务已入队，等待后台调度执行" ++ arguments_text args)

-- The job that `_trigger_crawl` and `_enqueue_crawl` create.
unfoldable pub queued_request : SourceSite → String → String → Option ℕ → SpiderArgs → JobRequest
queued_request source triggered_by job_type retry_of args = record {
  source_code = source.code;
  source_name = some source.name;
  source_url = some source.base_url;
  job_type = job_type;
  triggered_by = some triggered_by;
  retry_of_job_id = retry_of;
  job_params_json =
      some (build_job_params_json source.code job_type (some triggered_by) args retry_of none);
  runtime_stats_json = some (build_runtime_stats_payload (stage_only "queued"));
  failure_reason = none;
  message = some (build_queued_job_message job_type args);
}

-- The two readings of clocks in a creation.
pub record Moment : Type 0 where
  pub now : Time
  pub created_at : Time

abbrev pub hand_over :
    {E : Type 0}
    → Dispatcher E
    → SourceSite
    → String
    → String
    → SpiderArgs
    → Outcome TriggerError CrawlJobSnapshot × Database
    → Outcome TriggerError CrawlJobSnapshot × Database
hand_over dispatch source triggered_by job_type args (raises e, db) = (raises e, db)
hand_over dispatch source triggered_by job_type args (returns job, db) =
    let request : DispatchRequest = record {
      source_code = source.code;
      crawl_job_id = job.id;
      job_type = job_type;
      max_pages = spider_int args "max_pages";
      backfill_year = spider_int args "backfill_year";
      triggered_by = some triggered_by;
    } in
    (returns job, (dispatch request db).1)

-- `_enqueue_crawl`: an exception of the dispatcher is logged and forgotten.
unfoldable pub enqueue_crawl :
    {E : Type 0}
    → Dispatcher E
    → Moment
    → SourceSite
    → String
    → String
    → Option ℕ
    → SpiderArgs
    → Database
    → Outcome TriggerError CrawlJobSnapshot × Database
enqueue_crawl dispatch at_time source triggered_by job_type retry_of args db =
    hand_over dispatch source triggered_by job_type args (
      create_crawl_job source (queued_request source triggered_by job_type retry_of args)
        at_time.now at_time.created_at db)

abbrev pub with_args :
    {A : Type 0}
    → Checked SpiderArgs
    → Database
    → (SpiderArgs → Outcome TriggerError A × Database)
    → Outcome TriggerError A × Database
with_args (raises e) db f = (raises (check e), db)
with_args (returns args) db f = f args

module _ {E : Type 0} (dispatch : Dispatcher E) (at_time : Moment) where
  unfoldable pub queue_manual_crawl :
      SourceSite → Option ℤ → String → Database → Outcome TriggerError CrawlJobSnapshot × Database
  queue_manual_crawl source max_pages triggered_by db =
      with_args (build_spider_args max_pages none "manual") db
        (λ args. enqueue_crawl dispatch at_time source triggered_by "manual" none args db)

  unfoldable pub queue_backfill_crawl :
      SourceSite
      → ℤ
      → Option ℤ
      → String
      → Database
      → Outcome TriggerError CrawlJobSnapshot × Database
  queue_backfill_crawl source backfill_year max_pages triggered_by db =
      if less backfill_year (pos 2000)
      then (raises (check backfill_year_too_small), db)
      else with_args (build_spider_args max_pages (some backfill_year) "backfill") db
          (λ args. enqueue_crawl dispatch at_time source triggered_by "backfill" none args db)

  unfoldable pub queue_retry_crawl :
      SourceSite
      → ℕ
      → Option ℤ
      → Option ℤ
      → String
      → Database
      → Outcome TriggerError CrawlJobSnapshot × Database
  queue_retry_crawl source original max_pages backfill_year triggered_by db =
      with_args (build_spider_args max_pages backfill_year "manual_retry") db (λ args.
        enqueue_crawl dispatch at_time source triggered_by "manual_retry" (some original) args db)

abbrev pub went_wrong : JobStatus → Bool
went_wrong failed = true
went_wrong partial = true
went_wrong _ = false

-- `max_pages if max_pages is not None else inherited_max_pages or int(source.default_max_pages)`
unfoldable pub resolve_max_pages : Option ℤ → Option ℤ → ℕ → ℤ
resolve_max_pages (some n) inherited default_pages = n
resolve_max_pages none none default_pages = pos default_pages
resolve_max_pages none (some (pos zero)) default_pages = pos default_pages
resolve_max_pages none (some n) default_pages = n

-- The job that a retry is asked for, and its source, if it may be retried.
unfoldable pub retried_job : ℕ → Database → Outcome TriggerError (CrawlJob × SourceSite)
retried_job crawl_job_id db = elim (get_job crawl_job_id db) [
  | none ↦ raises job_to_retry_not_found
  | some job ↦
      if not (went_wrong job.status)
      then raises only_failed_or_partial
      else elim job.retry_of_job_id [
        | some original ↦ raises retry_of_a_retry
        | none ↦ elim (Table.get source_id job.source_site_id db.sources) [
          | none ↦ raises source_not_found
          | some source ↦ elim (load_retry_job_for_original_job job.id db) [
            | some existing ↦ raises (build_retry_conflict job.id (some existing))
            | none ↦ returns (job, source)
          ]
        ]
      ]
]

abbrev pub queue_retry_of :
    {E : Type 0}
    → Dispatcher E
    → Moment
    → Option ℤ
    → String
    → Database
    → Outcome TriggerError (CrawlJob × SourceSite)
    → Outcome TriggerError CrawlJobSnapshot × Database
queue_retry_of dispatch at_time max_pages triggered_by db (raises e) = (raises e, db)
queue_retry_of dispatch at_time max_pages triggered_by db (returns (job, source)) =
    queue_retry_crawl dispatch at_time source job.id
      (some (
        resolve_max_pages max_pages (read_payload_int job.job_params_json "max_pages")
          source.default_max_pages))
      (read_payload_int job.job_params_json "backfill_year") triggered_by db

unfoldable pub queue_retry_crawl_for_job :
    {E : Type 0}
    → Dispatcher E
    → Moment
    → ℕ
    → Option ℤ
    → String
    → Database
    → Outcome TriggerError CrawlJobSnapshot × Database
queue_retry_crawl_for_job dispatch at_time crawl_job_id max_pages triggered_by db =
    queue_retry_of dispatch at_time max_pages triggered_by db (retried_job crawl_job_id db)
