-- ===== src/Jobs/Preservation.antt =====
-- Every operation on an existing job keeps the tables consistent, and takes its job to a successor.
use tender_phase.Prelude.{
  ℕ, true, ◌&&◌, not, Option, none, some, ◌≡◌, refl, arith, or_else, count, ◌==◌,
}
use tender_phase.Prelude.Integers.{ℤ}
use tender_phase.Prelude.{String}
use tender_phase.Clock.{Time}
use tender_phase.Model.{JobMetrics, CrawlJob, Database, is_active, is_final, is_pending}
use tender_phase.Session.{raise_if, final_status_required}
use tender_phase.Jobs.Rules.{ensure_transition, calculate_lease_expires_at}
use tender_phase.Jobs.Lifecycle.{
  get_job, has_id, is_claimable, claim_row, Details, start_row, heartbeat_row,
  claim_pending_job_in_session, start_job_in_session, heartbeat_found, heartbeat_job_in_session,
}
use tender_phase.Jobs.Stats.{
  stats_row, MetricDeltas, normalize_deltas, all_zero, stats_found, record_stats_in_session,
}
use tender_phase.Jobs.Finish.{
  finish_row, target_status, finish_found, finish_job_in_session, fail_found,
  fail_job_if_active_in_session,
}
use tender_phase.Jobs.Invariant.{IsConsistent}
use tender_phase.Jobs.Updates.{
  update_jobs-IsConsistent, update_jobs-IsLater, update_job-IsConsistent, update_job-IsLater,
}
use tender_phase.Jobs.Rows.{
  claim_row-IsSuccessor, start_row-IsSuccessor, heartbeat_row-IsSuccessor, stats_row-IsSuccessor,
  finish_row-IsSuccessor, ensure_transition-may_become,
}
use tender_phase.Jobs.Keeps.{Keeps, Keeps-bind, Keeps-same, Keeps-if, Keeps-if_pair}

pub claim-Keeps :
    (job_id : ℕ) (picked_at : Option Time) (now : Time) (lease_seconds : ℤ) (db : Database)
    → IsConsistent db
    → Keeps db (claim_pending_job_in_session job_id picked_at now lease_seconds db)
unfolding claim_pending_job_in_session
claim-Keeps job_id picked_at now lease_seconds db c =
    let moment = or_else picked_at now in
    let test = λ (j : CrawlJob). has_id job_id j && is_claimable moment j in
    Keeps-bind db (calculate_lease_expires_at moment lease_seconds) _ λ deadline _.
      Keeps-if_pair db (count test db.jobs == 0) _ _ (λ _. Keeps-same db c)
        λ _.
          let next = λ (j : CrawlJob) (hit : test j ≡ true).
            claim_row-IsSuccessor moment deadline j (ground arith) in
          (
            update_jobs-IsConsistent test (claim_row moment deadline) next (λ j. refl) db c,
            update_jobs-IsLater test (claim_row moment deadline) next (λ j. refl) db,
          )

pub start-Keeps :
    (job_id : ℕ) (started_at : Option Time) (now : Time) (lease_seconds : ℤ) (d : Details)
    (db : Database)
    → IsConsistent db
    → Keeps db (start_job_in_session job_id started_at now lease_seconds d db)
unfolding start_job_in_session
start-Keeps job_id started_at now lease_seconds d db c =
    let moment = or_else started_at now in
    let test = λ (j : CrawlJob). has_id job_id j && is_pending j.status in
    Keeps-bind db (calculate_lease_expires_at now lease_seconds) _ λ deadline _.
      Keeps-if_pair db (count test db.jobs == 0) _ _ (λ _. Keeps-same db c)
        λ _.
          let next = λ (j : CrawlJob) (hit : test j ≡ true).
            start_row-IsSuccessor moment now deadline d j (ground arith) in
          (
            update_jobs-IsConsistent test (start_row moment now deadline d) next (λ j. refl) db c,
            update_jobs-IsLater test (start_row moment now deadline d) next (λ j. refl) db,
          )

heartbeat_found-Keeps :
    (job_id : ℕ) (moment : Time) (lease_seconds : ℤ) (db : Database) (o : Option CrawlJob)
    → get_job job_id db ≡ o
    → IsConsistent db
    → Keeps db (heartbeat_found job_id moment lease_seconds db o)
unfolding heartbeat_found
heartbeat_found-Keeps job_id moment lease_seconds db none found c = Keeps-same db c
heartbeat_found-Keeps job_id moment lease_seconds db (some j) found c =
    Keeps-if db (not (is_active j.status)) _ _ (λ _. Keeps-same db c)
      λ active. Keeps-bind db (calculate_lease_expires_at moment lease_seconds) _ λ deadline _.
        let next = heartbeat_row-IsSuccessor moment deadline j (ground arith) in
        (
          update_job-IsConsistent job_id (heartbeat_row moment deadline) db j found next (λ j. refl)
              c,
          update_job-IsLater job_id (heartbeat_row moment deadline) db j found next (λ j. refl),
        )

pub heartbeat-Keeps :
    (job_id : ℕ) (heartbeat_at : Option Time) (now : Time) (lease_seconds : ℤ) (db : Database)
    → IsConsistent db
    → Keeps db (heartbeat_job_in_session job_id heartbeat_at now lease_seconds db)
unfolding heartbeat_job_in_session
heartbeat-Keeps job_id heartbeat_at now lease_seconds db c =
    heartbeat_found-Keeps job_id (or_else heartbeat_at now) lease_seconds db (get_job job_id db)
      refl c

stats_found-Keeps :
    (job_id : ℕ) (d : JobMetrics) (db : Database) (o : Option CrawlJob)
    → get_job job_id db ≡ o
    → IsConsistent db
    → Keeps db (stats_found job_id d db o)
unfolding stats_found
stats_found-Keeps job_id d db none found c = Keeps-same db c
stats_found-Keeps job_id d db (some j) found c =
    let next = stats_row-IsSuccessor d j in
    (
      update_job-IsConsistent job_id (stats_row d) db j found next (λ j. refl) c,
      update_job-IsLater job_id (stats_row d) db j found next (λ j. refl),
    )

pub record_stats-Keeps :
    (job_id : Option ℕ) (a : MetricDeltas) (db : Database)
    → IsConsistent db
    → Keeps db (record_stats_in_session job_id a db)
unfolding record_stats_in_session
record_stats-Keeps none a db c = Keeps-same db c
record_stats-Keeps (some job_id) a db c = Keeps-bind db (normalize_deltas a) _ λ d _.
    Keeps-if db (all_zero d) _ _ (λ _. Keeps-same db c)
      λ _. stats_found-Keeps job_id d db (get_job job_id db) refl c

finish_found-Keeps :
    (job_id : ℕ) (status : Option String) (now : Time) (d : Details) (db : Database)
    (o : Option CrawlJob)
    → get_job job_id db ≡ o
    → IsConsistent db
    → Keeps db (finish_found job_id status now d db o)
unfolding finish_found
finish_found-Keeps job_id status now d db none found c = Keeps-same db c
finish_found-Keeps job_id status now d db (some j) found c =
    Keeps-bind db (target_status status j) _ λ target _.
      Keeps-bind db (raise_if (not (is_final target)) (final_status_required target)) _ λ _ final.
        Keeps-bind db (ensure_transition j.status target) _ λ _ move.
          let next =
            finish_row-IsSuccessor now target d j (ground arith)
              (ensure_transition-may_become j.status target move) in
          (
            update_job-IsConsistent job_id (finish_row now target d) db j found next (λ j. refl) c,
            update_job-IsLater job_id (finish_row now target d) db j found next (λ j. refl),
          )

pub finish-Keeps :
    (job_id : ℕ) (status : Option String) (finished_at : Option Time) (now : Time) (d : Details)
    (db : Database)
    → IsConsistent db
    → Keeps db (finish_job_in_session job_id status finished_at now d db)
unfolding finish_job_in_session
finish-Keeps job_id status finished_at now d db c =
    finish_found-Keeps job_id status (or_else finished_at now) d db (get_job job_id db) refl c

fail_found-Keeps :
    (job_id : ℕ) (finished_at : Option Time) (now : Time) (d : Details) (db : Database)
    (o : Option CrawlJob)
    → IsConsistent db
    → Keeps db (fail_found job_id finished_at now d db o)
unfolding fail_found
fail_found-Keeps job_id finished_at now d db none c = Keeps-same db c
fail_found-Keeps job_id finished_at now d db (some j) c =
    Keeps-if db (is_final j.status) _ _ (λ _. Keeps-same db c)
      λ _. finish-Keeps job_id (some "failed") finished_at now d db c

pub fail-Keeps :
    (job_id : ℕ) (finished_at : Option Time) (now : Time) (d : Details) (db : Database)
    → IsConsistent db
    → Keeps db (fail_job_if_active_in_session job_id finished_at now d db)
unfolding fail_job_if_active_in_session
fail-Keeps job_id finished_at now d db c =
    fail_found-Keeps job_id finished_at now d db (get_job job_id db) c
