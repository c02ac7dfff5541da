-- ===== src/Trigger/Tests.antt =====
-- Dispatches, runs and retries on a small database.
use tender_phase.Prelude.{String, true, none, some, Option, List, [], ◌∷◌, ◌≡◌, All}
use tender_phase.Prelude.Integers.{ℤ, pos, negsuc}
use tender_phase.Prelude.Integers
use tender_phase.Prelude.Decimal
use tender_phase.Prelude.Text
use tender_phase.Prelude.Outcome.{returns}
use tender_phase.Clock.{seconds}
use tender_phase.Model.{failed, manual_retry, CrawlJob, Database}
use tender_phase.Table
use tender_phase.Jobs.Rules
use tender_phase.Jobs.Creation
use tender_phase.Jobs.Creation.{new_job}
use tender_phase.Jobs.Finish
use tender_phase.Jobs.Finish.{finish_row}
use tender_phase.Jobs.Service
use tender_phase.Jobs.Service.{CrawlJobSnapshot}
use tender_phase.Jobs.Sweep
use tender_phase.Jobs.Samples.{site, job, waiting, waiting-IsConsistent, no_details, mixed_calls}
use tender_phase.Trigger.Checks
use tender_phase.Trigger.Arguments.{SpiderArgs, DispatchRequest}
use tender_phase.Trigger.Dispatch.{Machine, DispatchError, Dispatcher, dispatch, load_candidates}
use tender_phase.Payloads.{Payload, text}
use tender_phase.Trigger.Conflicts
use tender_phase.Trigger.Requests
use tender_phase.Trigger.Requests.{Moment, queued_request}
use tender_phase.Trigger.Running.{Run, execute_crawl_job}
use tender_phase.Trigger.Results.{leaves_done, execute_crawl_job-done}
use tender_phase.Trigger.Candidates.{IsTakeable, load_candidates-IsTakeable}
use tender_phase.Adapters
use tender_phase.Payloads

-- A machine where no process can be started.
abbrev full_machine : Machine
full_machine = record {
  python = "/usr/bin/python3";
  database_url = "sqlite:///tender.db";
  open_log = λ n. none;
  popen = λ n. some "out of memory";
}

abbrev hand_over_request : DispatchRequest
hand_over_request = record {
  source_code = "ggzy_gov_cn_deal";
  crawl_job_id = 1;
  job_type = "manual";
  max_pages = some (pos 3);
  backfill_year = none;
  triggered_by = some "api";
}

abbrev worker_command : List String
worker_command =
    "/usr/bin/python3" ∷ "-m" ∷ "app.run_crawl_job" ∷ "--database-url" ∷ "sqlite:///tender.db"
    ∷ "--source-code" ∷ "ggzy_gov_cn_deal" ∷ "--crawl-job-id" ∷ "1" ∷ "--job-type" ∷ "manual"
    ∷ "--max-pages" ∷ "3" ∷ []

abbrev refusing : Dispatcher DispatchError
refusing = dispatch full_machine (pos 1) (seconds 20) (seconds 25)

load_candidates-IsTakeable_example :
    All (IsTakeable (seconds 19) waiting) (load_candidates (seconds 19) 20 waiting)
load_candidates-IsTakeable_example =
    load_candidates-IsTakeable (seconds 19) 20 waiting waiting-IsConsistent

abbrev spider_run : Run
spider_run = record {
  python = "/usr/bin/python3";
  database_url = "sqlite:///tender.db";
  started_at = seconds 20;
  meanwhile = mixed_calls;
  ended = returns (pos 0);
  errors = [];
  metas = [];
  finished_at = seconds 90;
}

execute_crawl_job-done_example :
    leaves_done (execute_crawl_job site 1 "manual" (some (pos 3)) none spider_run waiting).0 ≡ true
execute_crawl_job-done_example =
    execute_crawl_job-done site 1 "manual" (some (pos 3)) none spider_run waiting

abbrev failed_job : CrawlJob
failed_job = finish_row (seconds 30) failed no_details job

abbrev lost : Database
lost = record waiting { jobs = failed_job ∷ [] }

abbrev retry_time : Moment
retry_time = record { now = seconds 40; created_at = seconds 41 }

abbrev retry_args : SpiderArgs
retry_args = ("max_pages", "50") ∷ ("job_type", "manual_retry") ∷ []

abbrev retry_job : CrawlJob
retry_job =
    new_job 2 1 manual_retry (seconds 40) (seconds 41)
      (queued_request site "admin" "manual_retry" (some 1) retry_args)

abbrev two_pages : List (Option Payload)
two_pages =
    some (
      ("role", text "list")
      ∷ ("first_publish_date_seen", text "2024-03-05")
      ∷ ("last_publish_date_seen", text "2024-03-01")
      ∷ [])
    ∷ none
    ∷ some (("role", text "list") ∷ ("first_publish_date_seen", text "2024-03-07") ∷ [])
    ∷ []
