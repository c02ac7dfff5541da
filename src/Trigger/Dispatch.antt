-- ===== src/Trigger/Dispatch.antt =====
-- app/services/crawl_job_dispatch_service.py, and `SubprocessCrawlJobDispatcher`: pending jobs are
-- claimed and handed to worker processes.
use Prim.Native.String.{◌++◌}
use tender_phase.Prelude.{
  ℕ, zero, suc, String, Bool, true, false, ◌&&◌, ◌||◌, Option, none, some, List, [], ◌∷◌, str_eq,
  leb, ltb, ◌==◌, select, take, or_option, if◌then◌else◌,
}
use mathlib.Core.Option
use tender_phase.Prelude.Integers.{ℤ, pos, negsuc}
use tender_phase.Prelude.Text.{strip}
use tender_phase.Prelude.Outcome.{Outcome, returns, raises}
use tender_phase.Clock.{Time}
use tender_phase.Payloads.{
  build_job_params_payload, build_runtime_stats_payload, stage_only, read_payload_int,
}
use tender_phase.Model.{CrawlJob, SourceSite, Database, job_type_text}
use tender_phase.Table
use tender_phase.Session.{Error, Result}
use tender_phase.Jobs.Rules.{set_to, default_pending_lease_seconds}
use tender_phase.Jobs.Lifecycle.{Details, is_claimable}
use tender_phase.Jobs.Creation.{source_id}
use tender_phase.Jobs.Service.{CrawlJobSnapshot, claim_pending_job, fail_job_if_active}
use tender_phase.Trigger.Checks.{CheckError, check_text, validate_worker_command}
use tender_phase.Trigger.Arguments.{DispatchRequest, build_worker_command, id_number}

-- `ORDER BY queued_at ASC NULLS FIRST, id ASC`
abbrev pub queued_before : CrawlJob → CrawlJob → Bool
queued_before a b = elim a.queued_at [
  | none ↦ elim b.queued_at [ none ↦ leb a.id b.id | some t ↦ true ]
  | some s ↦ elim b.queued_at [ none ↦ false | some t ↦ ltb s t || (s == t && leb a.id b.id) ]
]

abbrev pub stripped : Option String → Option String
stripped = Option.map strip

abbrev pub request_for : CrawlJob → SourceSite → DispatchRequest
request_for job source = record {
  source_code = source.code;
  crawl_job_id = job.id;
  job_type = job_type_text job.job_type;
  max_pages = read_payload_int job.job_params_json "max_pages";
  backfill_year = read_payload_int job.job_params_json "backfill_year";
  triggered_by = stripped job.triggered_by;
}

abbrev pub source_of : List SourceSite → CrawlJob → Option SourceSite
source_of sources job = Table.get source_id job.source_site_id sources

-- A job without its source is not in the join.
abbrev pub requests_for : List SourceSite → List CrawlJob → List DispatchRequest
requests_for sources [] = []
requests_for sources (job ∷ jobs) =
    let rest = requests_for sources jobs in
    elim (source_of sources job) [ none ↦ rest | some source ↦ request_for job source ∷ rest ]

abbrev pub in_join : Time → List SourceSite → CrawlJob → Bool
in_join now sources job =
    is_claimable now job && (elim (source_of sources job) [ none ↦ false | some source ↦ true ])

unfoldable pub load_candidates : Time → ℕ → Database → List DispatchRequest
load_candidates now limit db =
    requests_for db.sources
      (take limit (Table.order_by queued_before (select (in_join now db.sources) db.jobs)))

-- `PendingCrawlJobDispatchSweepResult`
pub record SweepResult : Type 0 where
  pub scanned_count : ℕ
  pub handoff_count : ℕ
  pub abandoned_count : ℕ

-- `CrawlJobDispatcher`: what a dispatch of a request does to the database, and how it ends.
abbrev pub Dispatcher : Type 0 → Type 0
Dispatcher E = DispatchRequest → Database → Outcome E (Unit {0}) × Database

abbrev pub count_handoff : {E : Type 0} → Outcome E (Unit {0}) → SweepResult → SweepResult
count_handoff (returns u) r = record r {
  scanned_count = suc r.scanned_count;
  handoff_count = suc r.handoff_count;
}
count_handoff (raises e) r = record r {
  scanned_count = suc r.scanned_count;
  abandoned_count = suc r.abandoned_count;
}

unfoldable pub dispatch_all :
    {E : Type 0}
    → Dispatcher E
    → List DispatchRequest
    → SweepResult
    → Database
    → SweepResult × Database
dispatch_all dispatch [] r db = (r, db)
dispatch_all dispatch (candidate ∷ candidates) r db =
    let (outcome, db') = dispatch candidate db in
    dispatch_all dispatch candidates (count_handoff outcome r) db'

-- `max(int(limit), 1)`
abbrev pub at_least_one : ℤ → ℕ
at_least_one (negsuc n) = 1
at_least_one (pos n) = if ltb n 1 then 1 else n

unfoldable pub dispatch_pending_jobs :
    {E : Type 0} → Dispatcher E → Time → ℤ → Database → SweepResult × Database
dispatch_pending_jobs dispatch now limit db =
    dispatch_all dispatch (load_candidates now (at_least_one limit) db)
      (record { scanned_count = 0; handoff_count = 0; abandoned_count = 0 }) db

pub data DispatchError : Type 0 where
  service : Error → DispatchError
  check : CheckError → DispatchError

-- What the machine does at an attempt: the error text of opening the log file and of `Popen`, if
-- either raises.
pub record Machine : Type 0 where
  pub python : String
  pub database_url : String
  pub open_log : ℕ → Option String
  pub popen : ℕ → Option String

abbrev pub check_failure : Outcome CheckError (Unit {0}) → Option String
check_failure (returns u) = none
check_failure (raises e) = some (check_text e)

-- The text of the exception that an attempt ends with, if it does.
unfoldable pub launch : Machine → List String → ℕ → Option String
launch machine command attempt =
    or_option (machine.open_log attempt)
      (or_option (check_failure (validate_worker_command command)) (machine.popen attempt))

-- `request.triggered_by or claimed_job.triggered_by`
abbrev pub caller : Option String → Option String → Option String
caller none b = b
caller (some s) b = if str_eq s "" then b else some s

abbrev pub abandoned_details : DispatchRequest → CrawlJobSnapshot → String → Details
abandoned_details r claimed exc =
    let reason = "后台任务派发失败：" ++ exc in
    record {
      job_params_json = set_to (
          some (
            build_job_params_payload (record {
              source_code = r.source_code;
              job_type = r.job_type;
              triggered_by = caller r.triggered_by claimed.triggered_by;
              max_pages = r.max_pages;
              backfill_year = r.backfill_year;
              retry_of_job_id = id_number claimed.retry_of_job_id;
              spider_name = none;
            })));
      runtime_stats_json =
          set_to (some (build_runtime_stats_payload (stage_only "dispatch_abandoned")));
      failure_reason = set_to (some reason);
      message = some (r.job_type ++ (" 任务派发失败：" ++ reason));
    }

abbrev pub ended :
    Outcome DispatchError (Unit {0})
    → Result (Option CrawlJobSnapshot)
    → Outcome DispatchError (Unit {0})
ended o (returns s) = o
ended o (raises e) = raises (service e)

unfoldable pub abandon :
    DispatchRequest
    → CrawlJobSnapshot
    → Time
    → String
    → Database
    → Outcome DispatchError (Unit {0}) × Database
abandon r claimed now exc db =
    let (result, db') =
      fail_job_if_active r.crawl_job_id none now (abandoned_details r claimed exc) db in
    (ended (returns tt) result, db')

-- The loop over attempts: `remaining` are left, of which the next has the number `attempt`.
unfoldable pub attempts :
    Machine
    → List String
    → DispatchRequest
    → CrawlJobSnapshot
    → Time
    → (remaining attempt : ℕ) → Database
    → Outcome DispatchError (Unit {0}) × Database
attempts machine command r claimed now zero attempt db = (returns tt, db)
attempts machine command r claimed now (suc remaining) attempt db =
    let again = attempts machine command r claimed now remaining (suc attempt) db in
    elim (launch machine command attempt) [
      | none ↦ (returns tt, db)
      | some exc ↦ if remaining == 0 then abandon r claimed now exc db else again
    ]

abbrev pub started_with :
    Machine
    → ℕ
    → DispatchRequest
    → CrawlJobSnapshot
    → Time
    → Database
    → Outcome CheckError (List String)
    → Outcome DispatchError (Unit {0}) × Database
started_with machine max_attempts r claimed now db (raises e) = (raises (check e), db)
started_with machine max_attempts r claimed now db (returns command) =
    attempts machine command r claimed now max_attempts 1 db

abbrev pub after_claim :
    Machine
    → ℕ
    → DispatchRequest
    → Time
    → Database
    → Result (Option CrawlJobSnapshot)
    → Outcome DispatchError (Unit {0}) × Database
after_claim machine max_attempts r now db (raises e) = (raises (service e), db)
after_claim machine max_attempts r now db (returns none) = (returns tt, db)
after_claim machine max_attempts r now db (returns (some claimed)) =
    started_with machine max_attempts r claimed now db
      (build_worker_command machine.python machine.database_url r)

-- `SubprocessCrawlJobDispatcher.dispatch`: the claim is made at `claimed_at`, and the job given up
-- at `failed_at` if every attempt fails.
unfoldable pub dispatch :
    Machine → (max_dispatch_attempts : ℤ) → (claimed_at failed_at : Time) → Dispatcher DispatchError
dispatch machine max_dispatch_attempts claimed_at failed_at r db =
    let (claimed, db') =
      claim_pending_job r.crawl_job_id none claimed_at default_pending_lease_seconds db in
    after_claim machine (at_least_one max_dispatch_attempts) r failed_at db' claimed
