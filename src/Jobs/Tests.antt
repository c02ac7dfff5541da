-- ===== src/Jobs/Tests.antt =====
-- The results about claims, starts and sequences of calls, run on small databases.
use tender_phase.Prelude.{none, some, ◌≡◌, refl, arith}
use tender_phase.Prelude.Integers.{pos}
use tender_phase.Clock.{seconds}
use tender_phase.Model.{CrawlJob}
use tender_phase.Session.{ok}
use tender_phase.Jobs.Lifecycle.{get_job, claim_row, start_row}
use tender_phase.Jobs.Service.{snapshot}
use tender_phase.Jobs.Invariant.{IsConsistent}
use tender_phase.Jobs.History.{
  run_calls, run_calls-IsConsistent, run_calls-IsDescendant, IsDescendant,
}
use tender_phase.Jobs.Claims.{claim_exclusive}
use tender_phase.Jobs.Starts.{start_once}
use tender_phase.Table
use tender_phase.Jobs.Rules.{calculate_lease_expires_at}
use tender_phase.Jobs.Service.{claim_pending_job, start_job}
use tender_phase.Jobs.Lifecycle.{claim_pending_job_in_session, start_job_in_session}
use tender_phase.Jobs.Samples.{
  job, waiting, waiting-IsConsistent, found_waiting, no_details, mixed_calls,
}

run_calls-IsConsistent_example : IsConsistent (run_calls mixed_calls waiting)
run_calls-IsConsistent_example = run_calls-IsConsistent mixed_calls waiting waiting-IsConsistent

run_calls-IsDescendant_example :
    (j' : CrawlJob) × (get_job 1 (run_calls mixed_calls waiting) ≡ some j') × IsDescendant job j'
run_calls-IsDescendant_example =
    run_calls-IsDescendant mixed_calls waiting 1 job waiting-IsConsistent found_waiting

claimed_once :
    (claim_pending_job 1 none (seconds 20) (pos 120) waiting).0
    ≡ ok (some (snapshot (claim_row (seconds 20) (seconds 140) job)))
unfolding claim_pending_job claim_pending_job_in_session calculate_lease_expires_at Table.get
    Table.update_where
claimed_once = refl

claim_exclusive_example :
    claim_pending_job 1 none
      (seconds 139)
      (pos 120)
      (claim_pending_job 1 none (seconds 20) (pos 120) waiting).1
    ≡ (ok none, (claim_pending_job 1 none (seconds 20) (pos 120) waiting).1)
claim_exclusive_example =
    claim_exclusive 1 none none (seconds 20) (seconds 139) 120 120 waiting
      (snapshot (claim_row (seconds 20) (seconds 140) job)) waiting-IsConsistent (omega arith)
      (omega arith) claimed_once (omega arith)

abbrev started_job : CrawlJob
started_job = start_row (seconds 20) (seconds 20) (seconds 80) no_details job

started_once :
    (start_job 1 none (seconds 20) (pos 60) no_details waiting).0 ≡ ok (some (snapshot started_job))
unfolding start_job start_job_in_session calculate_lease_expires_at Table.get Table.update_where
started_once = refl

start_once_example :
    start_job 1 none
      (seconds 600)
      (pos 60)
      no_details
      (run_calls mixed_calls (start_job 1 none (seconds 20) (pos 60) no_details waiting).1)
    ≡ (ok none, run_calls mixed_calls (start_job 1 none (seconds 20) (pos 60) no_details waiting).1)
start_once_example =
    start_once 1 none none (seconds 20) (seconds 600) 60 60 no_details no_details mixed_calls
      waiting (snapshot started_job) waiting-IsConsistent (omega arith) (omega arith) started_once
