-- ===== src/Trigger/Handover.antt =====
-- The dispatcher: what it does to the jobs, and when it gives one up.
use tender_phase.Prelude.{
  ℕ, zero, suc, ◌+◌, ◌≤◌, String, Option, none, some, List, [], ◌∷◌, ◌++◌ as append, ◌≡◌, refl, sym,
  ap, ◌∙◌, arith, length, take, ◌==◌, Option-cases, inl, inr, Bool-cases,
}
use tender_phase.Prelude.Integers.{ℤ, pos}
use tender_phase.Prelude.Outcome.{Outcome, returns, raises}
use tender_phase.Clock.{Time}
use tender_phase.Model.{CrawlJob, SourceSite, Database}
use tender_phase.Session.{Result}
use tender_phase.Jobs.Service.{CrawlJobSnapshot, claim_pending_job}
use tender_phase.Jobs.History.{Call, run_call, run_calls}
use tender_phase.Trigger.Checks.{CheckError}
use tender_phase.Trigger.Arguments.{DispatchRequest, build_worker_command}
use tender_phase.Trigger.Dispatch.{
  SweepResult, Dispatcher, Machine, launch, abandon, attempts, started_with, after_claim, dispatch,
  dispatch_all, dispatch_pending_jobs, load_candidates, requests_for, count_handoff, at_least_one,
  abandoned_details,
}

-- What a transaction, or several, may do: calls of the job service, one after another.
pub record IsServed (db db' : Database) : Type 0 where
  pub calls : List Call
  pub leaves : db' ≡ run_calls calls db

pub IsServed-refl : (db : Database) → IsServed db db
unfolding run_calls
IsServed-refl db = record { calls = []; leaves = refl }

pub IsServed-call : (call : Call) (db : Database) → IsServed db (run_call call db)
unfolding run_calls
IsServed-call call db = record { calls = call ∷ []; leaves = refl }

pub run_calls-append :
    (cs ds : List Call) (db : Database)
    → run_calls (append cs ds) db ≡ run_calls ds (run_calls cs db)
unfolding run_calls
run_calls-append [] ds db = refl
run_calls-append (c ∷ cs) ds db = run_calls-append cs ds (run_call c db)

pub IsServed-trans : (a b c : Database) → IsServed a b → IsServed b c → IsServed a c
IsServed-trans a b c s t = record {
  calls = append s.calls t.calls;
  leaves = t.leaves ∙ ap (run_calls t.calls) s.leaves ∙ sym (run_calls-append s.calls t.calls a);
}

module _ (machine : Machine) (command : List String) (r : DispatchRequest)
    (claimed : CrawlJobSnapshot) (now : Time) where
  abandon-IsServed : (exc : String) (db : Database) → IsServed db (abandon r claimed now exc db).1
  unfolding abandon run_call
  abandon-IsServed exc db =
      IsServed-call (Call.fail r.crawl_job_id none now (abandoned_details r claimed exc)) db

  attempts-IsServed :
      (remaining attempt : ℕ) (db : Database)
      → IsServed db (attempts machine command r claimed now remaining attempt db).1
  unfolding attempts
  attempts-IsServed zero attempt db = IsServed-refl db
  attempts-IsServed (suc remaining) attempt db =
      let again = attempts-IsServed remaining (suc attempt) db in
      elim (Option-cases (launch machine command attempt)) [
        | inl started ↦ rw (started, attempts) (IsServed-refl db)
        | inr (exc, fails) ↦ elim (Bool-cases (remaining == 0)) [
          | inl last ↦ rw (fails, attempts, last) (abandon-IsServed exc db)
          | inr more ↦ rw (fails, attempts, more) again
        ]
      ]

started_with-IsServed :
    (machine : Machine) (n : ℕ) (r : DispatchRequest) (claimed : CrawlJobSnapshot) (now : Time)
    (db : Database) (o : Outcome CheckError (List String))
    → IsServed db (started_with machine n r claimed now db o).1
started_with-IsServed machine n r claimed now db (raises e) = IsServed-refl db
started_with-IsServed machine n r claimed now db (returns command) =
    attempts-IsServed machine command r claimed now n 1 db

after_claim-IsServed :
    (machine : Machine) (n : ℕ) (r : DispatchRequest) (now : Time) (db : Database)
    (o : Result (Option CrawlJobSnapshot))
    → IsServed db (after_claim machine n r now db o).1
after_claim-IsServed machine n r now db (raises e) = IsServed-refl db
after_claim-IsServed machine n r now db (returns none) = IsServed-refl db
after_claim-IsServed machine n r now db (returns (some claimed)) =
    started_with-IsServed machine n r claimed now db
      (build_worker_command machine.python machine.database_url r)

-- Whatever the machine does, one dispatch changes the database by calls of the job service only.
pub dispatch-IsServed :
    (machine : Machine) (n : ℤ) (claimed_at failed_at : Time) (r : DispatchRequest) (db : Database)
    → IsServed db (dispatch machine n claimed_at failed_at r db).1
unfolding dispatch run_call
dispatch-IsServed machine n claimed_at failed_at r db =
    let db' = (claim_pending_job r.crawl_job_id none claimed_at (pos 120) db).1 in
    IsServed-trans db db' _ (IsServed-call (Call.claim r.crawl_job_id none claimed_at (pos 120)) db)
      (after_claim-IsServed machine (at_least_one n) r failed_at db'
        (claim_pending_job r.crawl_job_id none claimed_at (pos 120) db).0)

length-requests_for :
    (sources : List SourceSite) (n : ℕ) (jobs : List CrawlJob)
    → length (requests_for sources (take n jobs)) ≤ n
length-requests_for sources zero jobs = omega arith
length-requests_for sources (suc n) [] = omega arith
length-requests_for sources (suc n) (j ∷ js) = ground (arith, length-requests_for sources n js)

count_handoff_lem :
    {E : Type 0} (o : Outcome E (Unit {0})) (s : SweepResult)
    → s.scanned_count ≡ s.handoff_count + s.abandoned_count
    → ((count_handoff o s).scanned_count ≡ suc s.scanned_count)
      × ((count_handoff o s).scanned_count
          ≡ (count_handoff o s).handoff_count + (count_handoff o s).abandoned_count)
count_handoff_lem (returns u) s h = (refl, omega arith)
count_handoff_lem (raises e) s h = (refl, omega arith)

counted :
    {E : Type 0} (d : Dispatcher E) (rs : List DispatchRequest) (s : SweepResult) (db : Database)
    → s.scanned_count ≡ s.handoff_count + s.abandoned_count
    → ((dispatch_all d rs s db).0.scanned_count ≡ s.scanned_count + length rs)
      × ((dispatch_all d rs s db).0.scanned_count
          ≡ (dispatch_all d rs s db).0.handoff_count + (dispatch_all d rs s db).0.abandoned_count)
unfolding dispatch_all
counted d [] s db h = (omega arith, h)
counted d (r ∷ rs) s db h =
    let (one, sum) = count_handoff_lem (d r db).0 s h in
    let (all, sums) = counted d rs (count_handoff (d r db).0 s) (d r db).1 sum in
    (omega (arith, all, one), sums)

-- Whatever the dispatcher does, a sweep scans the candidates that it loaded, at most the limit of
-- them (at least one is allowed), and each is either handed over or abandoned.
pub dispatch_pending_jobs_lem :
    {E : Type 0} (d : Dispatcher E) (now : Time) (limit : ℤ) (db : Database)
    → let s = (dispatch_pending_jobs d now limit db).0 in
      (s.scanned_count ≡ length (load_candidates now (at_least_one limit) db))
      × (s.scanned_count ≡ s.handoff_count + s.abandoned_count)
      × (s.scanned_count ≤ at_least_one limit)
unfolding dispatch_pending_jobs load_candidates
dispatch_pending_jobs_lem d now limit db =
    let none_yet : SweepResult = record {
      scanned_count = 0;
      handoff_count = 0;
      abandoned_count = 0;
    } in
    let (all, sums) = counted d (load_candidates now (at_least_one limit) db) none_yet db refl in
    (
      omega (arith, all),
      sums,
      omega (arith, all, length-requests_for db.sources (at_least_one limit) _),
    )
