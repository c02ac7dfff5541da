-- ===== src/Jobs/Samples.antt =====
-- Small databases and sequences of calls, for the tests.
use tender_phase.Prelude.{true, none, some, List, [], ◌∷◌, ◌≡◌, refl, arith}
use tender_phase.Prelude.Integers.{pos, negsuc}
use tender_phase.Clock.{seconds}
use tender_phase.Model.{manual, CrawlJob, SourceSite, Database}
use tender_phase.Jobs.Rules.{unset, set_to}
use tender_phase.Jobs.Lifecycle.{get_job, Details}
use tender_phase.Jobs.Creation.{JobRequest, new_job, new_source}
use tender_phase.Jobs.Invariant.{IsConsistent}
use tender_phase.Jobs.History.{Call, run_call, run_calls, run_calls-IsConsistent}
use tender_phase.Prelude.Text.{as_str, strip}
use tender_phase.Adapters.{normalize_source_code}
use tender_phase.Table
use mathlib.Core.Path.{subst}
use tender_phase.Jobs.Rules.{normalize_job_type}
use tender_phase.Jobs.Service.{create_job}
use tender_phase.Jobs.Creation.{
  create_job_in_session, ensure_source_site, insert_job, found_or_added, find_source,
  source_by_code, legacy_deal_source, add_source, new_source_id, new_job_id,
}

abbrev pub no_rows : Database
no_rows = record { is_sqlite = true; sources = []; jobs = []; next_source_id = 0; next_job_id = 0 }

pub no_rows-IsConsistent : IsConsistent no_rows
no_rows-IsConsistent = record {
  valid = tt;
  one_id = λ k. omega arith;
  one_active = λ s. omega arith;
  one_retry = λ k. omega arith;
  job_sequence = λ server. tt;
  one_source_id = λ k. omega arith;
  one_code = λ c. omega arith;
  source_sequence = λ server. tt;
}

abbrev pub request : JobRequest
request = record {
  source_code = " 2 ";
  source_name = none;
  source_url = none;
  job_type = "manual";
  triggered_by = some "api";
  retry_of_job_id = none;
  job_params_json = none;
  runtime_stats_json = none;
  failure_reason = none;
  message = none;
}

abbrev pub site : SourceSite
site = new_source 1 "ggzy_gov_cn_deal" none none

abbrev pub job : CrawlJob
job = new_job 1 1 manual (seconds 10) (seconds 10) request

-- One job that waits.
abbrev pub waiting : Database
waiting = record {
  is_sqlite = true;
  sources = site ∷ [];
  jobs = job ∷ [];
  next_source_id = 0;
  next_job_id = 0;
}

created : run_calls (Call.create request (seconds 10) (seconds 10) ∷ []) no_rows ≡ waiting
unfolding run_calls run_call create_job create_job_in_session normalize_job_type as_str strip
    ensure_source_site insert_job found_or_added find_source source_by_code normalize_source_code
    legacy_deal_source Table.order_by add_source Table.insert new_source_id new_job_id Table.max_id
created = refl

pub waiting-IsConsistent : IsConsistent waiting
waiting-IsConsistent = subst IsConsistent created (
    run_calls-IsConsistent (Call.create request (seconds 10) (seconds 10) ∷ []) no_rows
      no_rows-IsConsistent)

pub found_waiting : get_job 1 waiting ≡ some job
unfolding Table.get
found_waiting = refl

abbrev pub no_details : Details
no_details = record {
  job_params_json = unset;
  runtime_stats_json = unset;
  failure_reason = set_to (some " no page ");
  message = some "";
}

-- What a dispatcher, a worker and a sweep may do, in an order that is not the usual one.
abbrev pub mixed_calls : List Call
mixed_calls =
    Call.finish 1 none none (seconds 15) no_details
    ∷ Call.start 1 none (seconds 20) (pos 60) no_details
    ∷ Call.create request (seconds 21) (seconds 21)
    ∷ Call.claim 1 none (seconds 22) (negsuc 0)
    ∷ Call.heartbeat 1 (some (seconds 30)) (seconds 31) (pos 60)
    ∷ Call.reconcile none (seconds 500) (some 3)
    ∷ Call.finish 1 (some "succeeded") none (seconds 501) no_details
    ∷ []
