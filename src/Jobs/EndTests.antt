-- ===== src/Jobs/EndTests.antt =====
-- The results about sweeps, counters and the end of a job, run on small databases.
use tender_phase.Prelude.{none, some, [], ◌∷◌, ◌≡◌, refl, arith}
use tender_phase.Prelude.Integers.{pos, negsuc}
use tender_phase.Clock.{seconds}
use tender_phase.Model.{succeeded, partial, JobMetrics, no_metrics, CrawlJob, SourceSite, Database}
use tender_phase.Session.{ok}
use tender_phase.Jobs.Lifecycle.{get_job, start_row}
use tender_phase.Jobs.Service.{snapshot}
use tender_phase.Jobs.Invariant.{IsConsistent}
use tender_phase.Jobs.History.{Call, run_call, run_calls, run_calls-IsConsistent}
use tender_phase.Prelude.{◌+◌}
use tender_phase.Prelude.Text.{as_str, strip}
use tender_phase.Table
use mathlib.Core.Path.{subst}
use tender_phase.Jobs.Rules.{calculate_lease_expires_at}
use tender_phase.Jobs.Service.{start_job}
use tender_phase.Jobs.Lifecycle.{update_jobs, start_job_in_session}
use tender_phase.Jobs.Creation.{ensure_source_site}
use tender_phase.Prelude.{map, select, count, ◌≢◌}
use tender_phase.Session.{err, invalid_transition}
use tender_phase.Jobs.Rules.{normalize_status, ensure_transition}
use tender_phase.Jobs.Lifecycle.{heartbeat_row}
use tender_phase.Jobs.Stats.{MetricDeltas}
use tender_phase.Jobs.Finish.{finish_row, finish_found, finish_job_in_session, target_status}
use tender_phase.Jobs.Sweep.{
  is_expired, expire_row, expires_before, reconcile_expired_jobs_in_session,
}
use tender_phase.Jobs.Service.{
  heartbeat_job, finish_job, fail_job_if_active, record_stats, reconcile_expired_jobs,
}
use tender_phase.Jobs.Expiry.{reconcile-eq-update}
use tender_phase.Jobs.Leases.{reconcile_complete, heartbeat_protects}
use tender_phase.Jobs.Ends.{finish_conflict, fail_after_end}
use tender_phase.Jobs.Counters.{given, record_stats_swap}
use tender_phase.Jobs.Sources.{Ensured, resolved_code, ensure_source_site-Ensured}
use tender_phase.Jobs.Samples.{job, waiting, waiting-IsConsistent, no_details, mixed_calls}

abbrev started_job : CrawlJob
started_job = start_row (seconds 20) (seconds 20) (seconds 80) no_details job

abbrev working : Database
working = record waiting { jobs = started_job ∷ [] }

working_calls :
    run_calls (Call.start 1 none (seconds 20) (pos 60) no_details ∷ []) waiting ≡ working
unfolding run_calls run_call start_job start_job_in_session calculate_lease_expires_at Table.get
    Table.update_where
working_calls = refl

working-IsConsistent : IsConsistent working
working-IsConsistent = subst IsConsistent working_calls (
    run_calls-IsConsistent (Call.start 1 none (seconds 20) (pos 60) no_details ∷ []) waiting
      waiting-IsConsistent)

found_working : get_job 1 working ≡ some started_job
unfolding Table.get
found_working = refl

reconcile-eq-update_example :
    reconcile_expired_jobs_in_session none (seconds 90) none working
    ≡ ok (
      map
          (expire_row (seconds 90))
          (Table.order_by expires_before (select (is_expired (seconds 90)) working.jobs)),
      update_jobs (is_expired (seconds 90)) (expire_row (seconds 90)) working,
    )
reconcile-eq-update_example = reconcile-eq-update none (seconds 90) working working-IsConsistent

reconcile_complete_example :
    count
      (is_expired (seconds 90))
      (reconcile_expired_jobs (some (seconds 90)) (seconds 91) none working).1.jobs
    ≡ 0
reconcile_complete_example =
    reconcile_complete (some (seconds 90)) (seconds 91) working working-IsConsistent

heartbeat_protects_example :
    get_job 1
      (reconcile_expired_jobs none
        (seconds 109)
        (some 1)
        (heartbeat_job 1 none (seconds 50) (pos 60) working).1).1
    ≡ some (heartbeat_row (seconds 50) (seconds 50 + seconds 60) started_job)
heartbeat_protects_example =
    heartbeat_protects 1 none (seconds 50) 60 none (seconds 109) (some 1) working started_job
      working-IsConsistent (omega arith) found_working refl (omega arith)

abbrev ended_job : CrawlJob
ended_job = finish_row (seconds 70) succeeded no_details started_job

abbrev ended : Database
ended = record waiting { jobs = ended_job ∷ [] }

ended_calls :
    run_calls (Call.finish 1 (some "succeeded") none (seconds 70) no_details ∷ []) working ≡ ended
unfolding run_calls run_call finish_job finish_job_in_session finish_found target_status
    normalize_status ensure_transition Table.get Table.update_where as_str strip
ended_calls = refl

ended-IsConsistent : IsConsistent ended
ended-IsConsistent = subst IsConsistent ended_calls (
    run_calls-IsConsistent (Call.finish 1 (some "succeeded") none (seconds 70) no_details ∷ [])
      working working-IsConsistent)

found_ended : get_job 1 ended ≡ some ended_job
unfolding Table.get
found_ended = refl

reads_partial : normalize_status " partial" ≡ ok partial
unfolding normalize_status as_str strip
reads_partial = refl

finish_conflict_example :
    finish_job 1 (some " partial") none (seconds 80) no_details (run_calls mixed_calls ended)
    ≡ (err (invalid_transition succeeded partial), run_calls mixed_calls ended)
finish_conflict_example =
    finish_conflict mixed_calls ended 1 ended_job " partial" partial none (seconds 80) no_details
      ended-IsConsistent found_ended refl refl reads_partial refl refl

fail_after_end_example :
    (j' : CrawlJob) × (fail_job_if_active 1 none
        (seconds 80)
        no_details
        (run_calls mixed_calls ended)
      ≡ (ok (some (snapshot j')), run_calls mixed_calls ended))
    × (j'.status ≡ succeeded)
fail_after_end_example =
    fail_after_end mixed_calls ended 1 ended_job none (seconds 80) no_details ended-IsConsistent
      found_ended refl

abbrev few : JobMetrics
few = record no_metrics { pages_fetched = 2; error_count = 1 }

abbrev wrong : MetricDeltas
wrong = record (given few) { documents_saved = negsuc 4 }

record_stats_swap_example :
    (record_stats 1 wrong (record_stats 1 (given few) working).1).1
    ≡ (record_stats 1 (given few) (record_stats 1 wrong working).1).1
record_stats_swap_example = record_stats_swap 1 1 (given few) wrong working

reads_code : as_str (some " 2 ") ≡ some "2"
unfolding as_str strip
reads_code = refl

not_blank : as_str (some " 2 ") ≢ none
not_blank h = cc (reads_code)

ensure_source_site-Ensured_example :
    (s : SourceSite) × (db' : Database) × (ensure_source_site " 2 " none none waiting ≡ ok (s, db'))
    × Ensured (resolved_code " 2 ") waiting s db'
ensure_source_site-Ensured_example =
    ensure_source_site-Ensured " 2 " none none waiting waiting-IsConsistent not_blank
