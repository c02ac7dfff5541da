-- ===== src/Jobs/Leases.antt =====
-- Leases: which jobs `reconcile_expired_jobs` fails and which a heartbeat keeps from it.
use tender_phase.Prelude.{
  ℕ, ◌+◌, ◌<◌, true, false, Option, none, some, List, [], ◌∷◌, ◌≡◌, refl, sym, ap, ◌∙◌, arith,
  count, or_else, if◌then◌else◌, map,
}
use mathlib.Core.Option
use tender_phase.Prelude.Integers.{pos}
use tender_phase.Clock.{Time, seconds}
use tender_phase.Model.{CrawlJob, Database, is_active}
use tender_phase.Table
use tender_phase.Table.Laws.{get-update_where, id-get}
use tender_phase.Table.One.{update_where_none}
use tender_phase.Session.{Result, ok}
use tender_phase.Jobs.Lifecycle.{
  get_job, has_id, update_jobs, heartbeat_row, heartbeat_found, heartbeat_job_in_session,
}
use tender_phase.Jobs.Sweep.{is_expired, expire_row, reconcile_expired_jobs_in_session}
use tender_phase.Jobs.Creation.{job_id}
use tender_phase.Jobs.Service.{heartbeat_job, commit_jobs, reconcile_expired_jobs}
use tender_phase.Jobs.Guarded.{lease_ok}
use tender_phase.Jobs.Invariant.{IsConsistent}
use tender_phase.Jobs.Expiry.{
  is_swept, is_listed, candidates, expire_candidates-eq, reconcile-eq-update,
}
use tender_phase.Jobs.History.{Call, run_call, run_call-Next}

none_swept :
    (moment : Time) (limit : Option ℕ) (db : Database) (xs : List CrawlJob)
    → candidates moment limit db ≡ []
    → count (is_swept moment limit db) xs ≡ 0
none_swept moment limit db [] h = refl
none_swept moment limit db (x ∷ xs) h =
    ground (arith, ap (λ cs. is_listed cs x.id) h, none_swept moment limit db xs h)

commit_jobs_lem :
    (cs : List CrawlJob) (change : CrawlJob → CrawlJob) (db db' : Database)
    → (cs ≡ [] → db ≡ db')
    → (commit_jobs (ok (map change cs, db')) db).1 ≡ db'
commit_jobs_lem [] change db db' h = h refl
commit_jobs_lem (c ∷ cs) change db db' h = refl

-- What the method leaves, with its commit.
reconciled :
    (now : Option Time) (current : Time) (limit : Option ℕ) (db : Database)
    → IsConsistent db
    → (reconcile_expired_jobs now current limit db).1
      ≡ update_jobs (is_swept (or_else now current) limit db) (expire_row (or_else now current)) db
unfolding reconcile_expired_jobs reconcile_expired_jobs_in_session
reconciled now current limit db c =
    let moment = or_else now current in
    ap (λ r. (commit_jobs r db).1) (expire_candidates-eq moment limit db c)
    ∙ commit_jobs_lem (candidates moment limit db) (expire_row moment) db _ (λ none_there. sym (
        ap (λ js. record db { jobs = js })
          (update_where_none (is_swept moment limit db) (expire_row moment) db.jobs
            (none_swept moment limit db db.jobs none_there))))

none_expired :
    (moment : Time) (xs : List CrawlJob)
    → count (is_expired moment) (Table.update_where (is_expired moment) (expire_row moment) xs) ≡ 0
unfolding Table.update_where
none_expired moment [] = refl
none_expired moment (x ∷ xs) = ground (arith, none_expired moment xs)

same_pair :
    {A B : Type 0} (a a' : A) (b b' : B)
    → ◌≡◌ {A = Result (A × B)} (ok (a, b)) (ok (a', b'))
    → b ≡ b'
same_pair a a' b b' h = cc

swept_all :
    (moment : Time) (db : Database)
    → IsConsistent db
    → update_jobs (is_swept moment none db) (expire_row moment) db
      ≡ update_jobs (is_expired moment) (expire_row moment) db
unfolding reconcile_expired_jobs_in_session
swept_all moment db c =
    same_pair _ _ _ _
      (sym (expire_candidates-eq moment none db c) ∙ reconcile-eq-update (some moment) 0 db c)

-- After `reconcile_expired_jobs` without a limit no running job is left whose lease has run out at
-- that moment.
pub reconcile_complete :
    (now : Option Time) (current : Time) (db : Database)
    → IsConsistent db
    → count (is_expired (or_else now current)) (reconcile_expired_jobs now current none db).1.jobs
      ≡ 0
reconcile_complete now current db c =
    ap (λ r. count (is_expired (or_else now current)) r.jobs)
      (reconciled now current none db c ∙ swept_all (or_else now current) db c)
    ∙ none_expired (or_else now current) db.jobs

-- A job whose lease holds is left as it is by a sweep, whatever its limit.
sweep_spares :
    (now : Option Time) (current : Time) (limit : Option ℕ) (db : Database) (k : ℕ) (j : CrawlJob)
    → IsConsistent db
    → get_job k db ≡ some j
    → is_expired (or_else now current) j ≡ false
    → get_job k (reconcile_expired_jobs now current limit db).1 ≡ some j
sweep_spares now current limit db k j c found holds =
    let moment = or_else now current in
    let spared : (if is_swept moment limit db j then expire_row moment j else j) ≡ j =
      ground arith in
    ap (get_job k) (reconciled now current limit db c)
    ∙ get-update_where job_id (is_swept moment limit db) (expire_row moment) (λ x. refl) k db.jobs
    ∙ ap (Option.map (λ x. if is_swept moment limit db x then expire_row moment x else x)) found
    ∙ ap some spared

heartbeat_kept :
    (k : ℕ) (heartbeat_at : Option Time) (now : Time) (l : ℕ) (db : Database) (j : CrawlJob)
    → 0 < l
    → get_job k db ≡ some j
    → is_active j.status ≡ true
    → get_job k (heartbeat_job k heartbeat_at now (pos l) db).1
      ≡ some (heartbeat_row (or_else heartbeat_at now) (or_else heartbeat_at now + seconds l) j)
unfolding heartbeat_job heartbeat_job_in_session heartbeat_found
heartbeat_kept k heartbeat_at now l db j positive found active =
    let moment = or_else heartbeat_at now in
    let change = heartbeat_row moment (moment + seconds l) in
    let at_k = id-get job_id k db.jobs j found in
    let hit : (if has_id k j then change j else j) ≡ change j = ground arith in
    rw (found, active, lease_ok moment l positive)
      (get-update_where job_id (has_id k) change (λ x. refl) k db.jobs
        ∙ ap (Option.map (λ x. if has_id k x then change x else x)) found
        ∙ ap some hit)

-- A heartbeat of a pending or running job keeps it from the sweep: a `reconcile_expired_jobs`, with
-- or without a limit, whose moment is before the end of the lease that the heartbeat gave leaves
-- the job as the heartbeat left it.
pub heartbeat_protects :
    (k : ℕ) (heartbeat_at : Option Time) (now : Time) (l : ℕ) (sweep_at : Option Time)
    (current : Time) (limit : Option ℕ) (db : Database) (j : CrawlJob)
    → IsConsistent db
    → 0 < l
    → get_job k db ≡ some j
    → is_active j.status ≡ true
    → or_else sweep_at current < or_else heartbeat_at now + seconds l
    → get_job k
        (reconcile_expired_jobs sweep_at current limit
          (heartbeat_job k heartbeat_at now (pos l) db).1).1
      ≡ some (heartbeat_row (or_else heartbeat_at now) (or_else heartbeat_at now + seconds l) j)
unfolding run_call
heartbeat_protects k heartbeat_at now l sweep_at current limit db j c positive found active early =
    sweep_spares sweep_at current limit (heartbeat_job k heartbeat_at now (pos l) db).1 k _
      (run_call-Next (Call.heartbeat k heartbeat_at now (pos l)) db c).0
      (heartbeat_kept k heartbeat_at now l db j positive found active) (ground arith)
