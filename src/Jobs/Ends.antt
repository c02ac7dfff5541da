-- ===== src/Jobs/Ends.antt =====
-- `finish_job` and `fail_job_if_active` on a job that has ended.
use tender_phase.Prelude.{
  ℕ, String, true, false, Option, some, List, ◌≡◌, refl, ap, ◌∙◌, arith, str_eq,
}
use tender_phase.Clock.{Time}
use tender_phase.Model.{
  JobStatus, pending, running, succeeded, failed, partial, CrawlJob, Database, is_final,
}
use tender_phase.Session.{ok, err, invalid_transition}
use tender_phase.Jobs.Rules.{same_status, ensure_transition, normalize_status}
use tender_phase.Jobs.Lifecycle.{get_job, Details}
use tender_phase.Jobs.Finish.{
  target_status, finish_found, finish_job_in_session, fail_found, fail_job_if_active_in_session,
}
use tender_phase.Jobs.Service.{snapshot, finish_job, fail_job_if_active}
use tender_phase.Jobs.Invariant.{IsConsistent}
use tender_phase.Jobs.History.{Call, may_reach, run_calls, run_calls-IsDescendant}

final_stays : (s t : JobStatus) → is_final s ≡ true → may_reach s t ≡ true → t ≡ s
final_stays pending t f h = absurd (cc)
final_stays running t f h = absurd (cc)
final_stays succeeded succeeded f h = refl
final_stays succeeded pending f h = absurd (cc)
final_stays succeeded running f h = absurd (cc)
final_stays succeeded failed f h = absurd (cc)
final_stays succeeded partial f h = absurd (cc)
final_stays failed succeeded f h = absurd (cc)
final_stays failed pending f h = absurd (cc)
final_stays failed running f h = absurd (cc)
final_stays failed failed f h = refl
final_stays failed partial f h = absurd (cc)
final_stays partial succeeded f h = absurd (cc)
final_stays partial pending f h = absurd (cc)
final_stays partial running f h = absurd (cc)
final_stays partial failed f h = absurd (cc)
final_stays partial partial f h = refl

other_refused :
    (s u : JobStatus)
    → is_final s ≡ true
    → same_status u s ≡ false
    → ensure_transition s u ≡ err (invalid_transition s u)
unfolding ensure_transition
other_refused s u f h = ground arith

refused_at :
    (k : ℕ) (s : String) (u : JobStatus) (at : Option Time) (now : Time) (d : Details)
    (db : Database) (j : CrawlJob)
    → get_job k db ≡ some j
    → is_final j.status ≡ true
    → str_eq s "" ≡ false
    → normalize_status s ≡ ok u
    → is_final u ≡ true
    → same_status u j.status ≡ false
    → finish_job k (some s) at now d db ≡ (err (invalid_transition j.status u), db)
unfolding finish_job finish_job_in_session finish_found target_status
refused_at k s u at now d db j found f given reads fu other =
    rw (found, given, reads, fu, other_refused j.status u f other)

-- A job that has ended with one status cannot be finished with another, whatever calls came in
-- between: `finish_job` with a different final status raises the transition error with the status
-- that the job ended with, and changes nothing.
pub finish_conflict :
    (calls : List Call) (db : Database) (k : ℕ) (j : CrawlJob) (s : String) (u : JobStatus)
    (finished_at : Option Time) (now : Time) (d : Details)
    → IsConsistent db
    → get_job k db ≡ some j
    → is_final j.status ≡ true
    → str_eq s "" ≡ false
    → normalize_status s ≡ ok u
    → is_final u ≡ true
    → same_status u j.status ≡ false
    → finish_job k (some s) finished_at now d (run_calls calls db)
      ≡ (err (invalid_transition j.status u), run_calls calls db)
finish_conflict calls db k j s u finished_at now d c found f given reads fu other =
    let (j', found', from) = run_calls-IsDescendant calls db k j c found in
    let same = final_stays j.status j'.status f from.reachable in
    refused_at k s u finished_at now d (run_calls calls db) j' found' (ap is_final same ∙ f) given
      reads fu (ap (same_status u) same ∙ other)
    ∙ ap (λ t. (err (invalid_transition t u), run_calls calls db)) same

failed_at :
    (k : ℕ) (at : Option Time) (now : Time) (d : Details) (db : Database) (j : CrawlJob)
    → get_job k db ≡ some j
    → is_final j.status ≡ true
    → fail_job_if_active k at now d db ≡ (ok (some (snapshot j)), db)
unfolding fail_job_if_active fail_job_if_active_in_session fail_found
failed_at k at now d db j found f = rw (found, f)

-- A dispatcher or worker that reports a failure of a job that has ended leaves the database as it
-- is, whatever calls came in between, and gets the job with the status that it ended with.
pub fail_after_end :
    (calls : List Call) (db : Database) (k : ℕ) (j : CrawlJob) (finished_at : Option Time)
    (now : Time) (d : Details)
    → IsConsistent db
    → get_job k db ≡ some j
    → is_final j.status ≡ true
    → (j' : CrawlJob) × (fail_job_if_active k finished_at now d (run_calls calls db)
        ≡ (ok (some (snapshot j')), run_calls calls db))
      × (j'.status ≡ j.status)
fail_after_end calls db k j finished_at now d c found f =
    let (j', found', from) = run_calls-IsDescendant calls db k j c found in
    let same = final_stays j.status j'.status f from.reachable in
    (j', failed_at k finished_at now d (run_calls calls db) j' found' (ap is_final same ∙ f), same)
