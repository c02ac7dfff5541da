-- ===== src/Jobs/NewJobs.antt =====
-- `create_job_in_session`: a new job keeps the tables consistent.
use tender_phase.Prelude.{
  ℕ, suc, ◌≤◌, ◌<◌, false, ◌&&◌, some, ◌≡◌, refl, ltb, if◌then◌else◌, count, All, arith, Bool-cases,
  inl, inr, ap, sym, ◌∙◌,
}
use mathlib.Core.Path.{subst}
use tender_phase.Clock.{Time}
use tender_phase.Model.{JobType, CrawlJob, Database, is_active}
use tender_phase.Session.{Result, ok, err}
use tender_phase.Table
use tender_phase.Table.Laws.{count-insert, All-insert, get-insert}
use tender_phase.Table.Fresh.{count-next_id, count_ids-insert, All-below-suc}
use tender_phase.Jobs.Rules.{normalize_job_type}
use tender_phase.Jobs.Lifecycle.{has_id}
use tender_phase.Jobs.Creation.{
  job_id, new_job_id, active_on, is_retry_of, retries_same, insert_job, new_job, check_original,
  JobRequest, ensure_source_site, create_job_in_session,
}
use tender_phase.Jobs.Invariant.{IsValidJob, IsConsistent, IsSuccessor-refl, IsLater}
use tender_phase.Jobs.Sources.{Ensured-of_ok}
use tender_phase.Jobs.Keeps.{Keeps, Keeps-bind, Keeps-if}

pub new_job_id_free : (db : Database) → IsConsistent db → count (has_id (new_job_id db)) db.jobs ≡ 0
unfolding new_job_id
new_job_id_free db c = count-next_id job_id db.is_sqlite db.next_job_id db.jobs c.job_sequence

-- The tables after the INSERT.
abbrev inserted : CrawlJob → Database → Database
inserted job db = record db {
  jobs = Table.insert job db.jobs;
  next_job_id = if db.is_sqlite then db.next_job_id else suc db.next_job_id;
}

job_below :
    (db : Database) (job : CrawlJob)
    → IsConsistent db
    → job.id ≡ new_job_id db
    → db.is_sqlite ≡ false
    → All (λ j. j.id < (inserted job db).next_job_id) (inserted job db).jobs
unfolding new_job_id
job_below db job c new server = rw server (
    All-insert (λ j. j.id < suc db.next_job_id) job db.jobs (ground arith)
      (All-below-suc job_id db.next_job_id db.jobs (c.job_sequence server)))

module _ (job : CrawlJob) (db : Database) (c : IsConsistent db) (new : job.id ≡ new_job_id db)
    (valid : IsValidJob job)
    (active_free : (is_active job.status && ltb 0 (count (active_on job.source_site_id) db.jobs))
      ≡ false)
    (retry_free : ltb 0 (count (retries_same job.retry_of_job_id) db.jobs) ≡ false) where
  one_active-insert : (s : ℕ) → count (active_on s) (inserted job db).jobs ≤ 1
  one_active-insert s = elim (Bool-cases (active_on s job)) [
    | inl hit ↦
        let e : job.source_site_id ≡ s = ground arith in
        let free = subst (λ n. ltb 0 (count (active_on n) db.jobs) ≡ false) e (ground arith) in
        ground (arith, count-insert (active_on s) job db.jobs, free)
    | inr miss ↦ ground (arith, count-insert (active_on s) job db.jobs, c.one_active s)
  ]

  one_retry-insert : (k : ℕ) → count (is_retry_of k) (inserted job db).jobs ≤ 1
  one_retry-insert k = elim (Bool-cases (is_retry_of k job)) [
    | inl hit ↦
        let e : job.retry_of_job_id ≡ some k = ground arith in
        let free : ltb 0 (count (is_retry_of k) db.jobs) ≡ false =
          subst (λ o. ltb 0 (count (retries_same o) db.jobs) ≡ false) e retry_free in
        ground (arith, count-insert (is_retry_of k) job db.jobs, free)
    | inr miss ↦ ground (arith, count-insert (is_retry_of k) job db.jobs, c.one_retry k)
  ]

  inserted-IsConsistent : IsConsistent (inserted job db)
  inserted-IsConsistent = record {
    valid = All-insert IsValidJob job db.jobs valid c.valid;
    one_id =
        count_ids-insert job_id job db.jobs
          (subst (λ n. count (has_id n) db.jobs ≡ 0) (sym new) (new_job_id_free db c)) c.one_id;
    one_active = one_active-insert;
    one_retry = one_retry-insert;
    job_sequence = job_below db job c new;
    one_source_id = c.one_source_id;
    one_code = c.one_code;
    source_sequence = c.source_sequence;
  }

inserted-IsLater : (job : CrawlJob) (db : Database) → IsLater db (inserted job db)
inserted-IsLater job db = record {
  kept = λ k j e. (j, get-insert job_id k job db.jobs ∙ rw e, IsSuccessor-refl j);
}

insert_job-Keeps :
    (job : CrawlJob) (db : Database)
    → IsConsistent db
    → job.id ≡ new_job_id db
    → IsValidJob job
    → Keeps db (insert_job job db)
unfolding insert_job
insert_job-Keeps job db c new valid =
    Keeps-if db (is_active job.status && ltb 0 (count (active_on job.source_site_id) db.jobs)) _ _
      (λ _. tt)
      λ a.
        Keeps-if db (ltb 0 (count (retries_same job.retry_of_job_id) db.jobs)) _ _ (λ _. tt)
          λ r. (inserted-IsConsistent job db c new valid a r, inserted-IsLater job db)

new_job-IsValid :
    (id source_site_id : ℕ) (t : JobType) (now created_at : Time) (r : JobRequest)
    → IsValidJob (new_job id source_site_id t now created_at r)
new_job-IsValid id source_site_id t now created_at r = ground arith

-- The jobs of the source's transaction are those that were there before.
Keeps-same_jobs :
    {A : Type 0} (db db' : Database) (r : Result (A × Database))
    → db'.jobs ≡ db.jobs
    → Keeps db' r
    → Keeps db r
Keeps-same_jobs db db' (ok (a, d)) same (c, later) =
    (c, record { kept = λ k j e. later.kept k j (ap (Table.get job_id k) same ∙ e) })
Keeps-same_jobs db db' (err e) same h = tt

pub create-Keeps :
    (r : JobRequest) (now created_at : Time) (db : Database)
    → IsConsistent db
    → Keeps db (create_job_in_session r now created_at db)
unfolding create_job_in_session
create-Keeps r now created_at db c = Keeps-bind db (normalize_job_type r.job_type) _ λ t _.
    Keeps-bind db (ensure_source_site r.source_code r.source_name r.source_url db) _ λ p ensured.
      let found = Ensured-of_ok r.source_code r.source_name r.source_url db p c ensured in
      Keeps-bind db (check_original r.retry_of_job_id p.1) _ λ _ _.
        Keeps-same_jobs db p.1 _ found.same_jobs (
          insert_job-Keeps (new_job (new_job_id p.1) p.0.id t now created_at r) p.1 found.consistent
            refl (new_job-IsValid (new_job_id p.1) p.0.id t now created_at r))
