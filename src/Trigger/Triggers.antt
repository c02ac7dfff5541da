-- ===== src/Trigger/Triggers.antt =====
-- The requests that create a job and run it in one call, and the admin page's job.
use tender_phase.Prelude.{ℕ, String, Option, none, some, if◌then◌else◌}
use tender_phase.Prelude.Integers.{ℤ, pos, less}
use tender_phase.Prelude.Outcome.{Outcome, returns, raises}
use tender_phase.Payloads.{build_runtime_stats_payload, stage_only}
use tender_phase.Model.{SourceSite, Database}
use tender_phase.Jobs.Creation.{JobRequest}
use tender_phase.Jobs.Service.{CrawlJobSnapshot}
use tender_phase.Trigger.Checks.{backfill_year_too_small}
use tender_phase.Trigger.Arguments.{SpiderArgs, build_spider_args, build_job_params_json}
use tender_phase.Trigger.Conflicts.{
  TriggerError, check, create_crawl_job, resolve_spider_name_for_source,
}
use tender_phase.Trigger.Requests.{Moment, queued_request, with_args}
use tender_phase.Trigger.Running.{Run, Triggered, run_existing_crawl_job, execute_crawl_job}

abbrev pub run_created :
    SourceSite
    → String
    → SpiderArgs
    → Run
    → Outcome TriggerError CrawlJobSnapshot × Database
    → Triggered
run_created source job_type args run (raises e, db) = (raises e, db)
run_created source job_type args run (returns job, db) =
    run_existing_crawl_job source job.id job_type args run db

-- `_trigger_crawl`
unfoldable pub trigger_crawl :
    Moment → SourceSite → String → String → Option ℕ → SpiderArgs → Run → Database → Triggered
trigger_crawl at_time source triggered_by job_type retry_of args run db =
    run_created source job_type args run (
      create_crawl_job source (queued_request source triggered_by job_type retry_of args)
        at_time.now at_time.created_at db)

module _ (at_time : Moment) (source : SourceSite) where
  unfoldable pub trigger_manual_crawl : Option ℤ → String → Run → Database → Triggered
  trigger_manual_crawl max_pages triggered_by run db =
      with_args (build_spider_args max_pages none "manual") db
        (λ args. trigger_crawl at_time source triggered_by "manual" none args run db)

  unfoldable pub trigger_backfill_crawl : ℤ → Option ℤ → String → Run → Database → Triggered
  trigger_backfill_crawl backfill_year max_pages triggered_by run db =
      if less backfill_year (pos 2000)
      then (raises (check backfill_year_too_small), db)
      else with_args (build_spider_args max_pages (some backfill_year) "backfill") db
          (λ args. trigger_crawl at_time source triggered_by "backfill" none args run db)

  unfoldable pub trigger_scheduled_crawl : Option ℤ → String → Run → Database → Triggered
  trigger_scheduled_crawl max_pages triggered_by run db =
      with_args (build_spider_args max_pages none "scheduled") db
        (λ args. trigger_crawl at_time source triggered_by "scheduled" none args run db)

  unfoldable pub trigger_retry_crawl : ℕ → Option ℤ → Option ℤ → String → Run → Database → Triggered
  trigger_retry_crawl original max_pages backfill_year triggered_by run db =
      with_args (build_spider_args max_pages backfill_year "manual_retry") db (λ args.
        trigger_crawl at_time source triggered_by "manual_retry" (some original) args run db)

  abbrev manual_request : String → String → SpiderArgs → JobRequest
  manual_request triggered_by message args = record {
    source_code = source.code;
    source_name = some source.name;
    source_url = some source.base_url;
    job_type = "manual";
    triggered_by = some triggered_by;
    retry_of_job_id = none;
    job_params_json =
        some (build_job_params_json source.code "manual" (some triggered_by) args none none);
    runtime_stats_json = some (build_runtime_stats_payload (stage_only "queued"));
    failure_reason = none;
    message = some message;
  }

  -- The spider is looked up first, and again when the job is created.
  unfoldable pub create_manual_crawl_job :
      Option ℤ → String → String → Database → Outcome TriggerError CrawlJobSnapshot × Database
  create_manual_crawl_job max_pages triggered_by message db =
      elim (resolve_spider_name_for_source source.code "manual") [
        | raises e ↦ (raises e, db)
        | returns spider ↦ with_args (build_spider_args max_pages none "manual") db (λ args.
            create_crawl_job source (manual_request triggered_by message args) at_time.now
              at_time.created_at db)
      ]

unfoldable pub execute_manual_crawl_job : SourceSite → ℕ → Option ℤ → Run → Database → Triggered
execute_manual_crawl_job source k max_pages run db =
    execute_crawl_job source k "manual" max_pages none run db
