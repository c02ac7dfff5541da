-- ===== src/Jobs/Invariant.antt =====
-- What holds of every job and of the tables between two transactions.
use tender_phase.Prelude.{
  ℕ, ◌≤◌, ◌<◌, Bool, true, false, String, none, some, ◌≡◌, refl, ◌==◌, is_some, count, All, arith,
}
use tender_phase.Model.{
  JobStatus, pending, running, succeeded, failed, partial, CrawlJob, Database, is_active, is_final,
}
use tender_phase.Jobs.Rules.{same_status}
use tender_phase.Jobs.Lifecycle.{get_job, has_id}
use tender_phase.Jobs.Creation.{active_on, is_retry_of, has_code, source_id}

-- The columns of a job agree with its status, and its two lease columns with each other.
pub record IsValidJob (j : CrawlJob) : Type 0 where
  pub one_lease : j.timeout_at ≡ j.lease_expires_at
  pub pending_unstarted : j.status ≡ pending → (j.started_at ≡ none) × (j.finished_at ≡ none)
  pub running_leased :
      j.status ≡ running
      → (is_some j.picked_at ≡ true)
        × (is_some j.started_at ≡ true)
        × (j.finished_at ≡ none)
        × (is_some j.timeout_at ≡ true)
  pub final_closed :
      is_final j.status ≡ true
      → (is_some j.started_at ≡ true) × (is_some j.finished_at ≡ true) × (j.timeout_at ≡ none)

-- The tables: valid jobs with distinct ids, one active job for a source and one retry for a job
-- at most, and sources with distinct ids and codes. On a server the sequences are ahead of the ids.
pub record IsConsistent (db : Database) : Type 0 where
  pub valid : All IsValidJob db.jobs
  pub one_id : (k : ℕ) → count (has_id k) db.jobs ≤ 1
  pub one_active : (s : ℕ) → count (active_on s) db.jobs ≤ 1
  pub one_retry : (k : ℕ) → count (is_retry_of k) db.jobs ≤ 1
  pub job_sequence : db.is_sqlite ≡ false → All (λ j. j.id < db.next_job_id) db.jobs
  pub one_source_id : (k : ℕ) → count (λ s. source_id s == k) db.sources ≤ 1
  pub one_code : (c : String) → count (has_code c) db.sources ≤ 1
  pub source_sequence : db.is_sqlite ≡ false → All (λ s. s.id < db.next_source_id) db.sources

-- The moves of a job in one step: it is picked up, it ends, or it stays.
abbrev pub may_become : JobStatus → JobStatus → Bool
may_become pending pending = true
may_become pending running = true
may_become pending succeeded = false
may_become pending failed = true
may_become pending partial = false
may_become running pending = false
may_become running running = true
may_become running succeeded = true
may_become running failed = true
may_become running partial = true
may_become succeeded t = same_status succeeded t
may_become failed t = same_status failed t
may_become partial t = same_status partial t

-- What one transaction may do to a job.
pub record IsSuccessor (j j' : CrawlJob) : Type 0 where
  pub same_id : j'.id ≡ j.id
  pub same_source : j'.source_site_id ≡ j.source_site_id
  pub same_type : j'.job_type ≡ j.job_type
  pub same_retry : j'.retry_of_job_id ≡ j.retry_of_job_id
  pub allowed : may_become j.status j'.status ≡ true
  pub still_valid : IsValidJob j → IsValidJob j'

-- No job is lost between `db` and `db'`, and each has gone on by at most one move.
pub record IsLater (db db' : Database) : Type 0 where
  pub kept :
      (k : ℕ) (j : CrawlJob)
      → get_job k db ≡ some j
      → (j' : CrawlJob) × (get_job k db' ≡ some j') × IsSuccessor j j'

pub may_become_self : (s : JobStatus) → may_become s s ≡ true
may_become_self pending = refl
may_become_self running = refl
may_become_self succeeded = refl
may_become_self failed = refl
may_become_self partial = refl

-- No move leads to an active status from another.
pub active_before :
    (s t : JobStatus) → may_become s t ≡ true → is_active t ≡ true → is_active s ≡ true
active_before pending t h a = refl
active_before running t h a = refl
active_before succeeded t h a = ground arith
active_before failed t h a = ground arith
active_before partial t h a = ground arith

pub IsSuccessor-refl : (j : CrawlJob) → IsSuccessor j j
IsSuccessor-refl j = record {
  same_id = refl;
  same_source = refl;
  same_type = refl;
  same_retry = refl;
  allowed = may_become_self j.status;
  still_valid = λ v. v;
}

pub IsLater-refl : (db : Database) → IsLater db db
IsLater-refl db = record { kept = λ k j e. (j, e, IsSuccessor-refl j) }
