-- ===== src/Jobs/Updates.antt =====
-- Updates that take each changed job to a successor keep the tables consistent.
use tender_phase.Prelude.{
  ℕ, ◌<◌, Bool, true, some, ◌≡◌, if◌then◌else◌, arith, ◌∙◌, ap, sym, Bool-cases, inl, inr,
}
use mathlib.Core.Option
use mathlib.Core.Option.{some-injective}
use mathlib.Core.Path.{subst}
use tender_phase.Model.{CrawlJob, Database}
use tender_phase.Table.Laws.{
  get-update_where, count-update_where-le, All-update_where, All-get, id-get,
}
use tender_phase.Table.One.{count-update_one-le, All-update_one}
use tender_phase.Jobs.Lifecycle.{get_job, has_id, update_jobs}
use tender_phase.Jobs.Creation.{active_on, is_retry_of, job_id}
use tender_phase.Jobs.Invariant.{
  IsValidJob, IsConsistent, IsSuccessor, IsSuccessor-refl, IsLater, active_before,
}

module _ {j j' : CrawlJob} (next : IsSuccessor j j') where
  successor-has_id : (k : ℕ) → has_id k j' ≡ true → has_id k j ≡ true
  successor-has_id k h = ground (arith, next.same_id)

  successor-active_on : (s : ℕ) → active_on s j' ≡ true → active_on s j ≡ true
  successor-active_on s h =
      ground (arith, next.same_source, active_before j.status j'.status next.allowed)

  successor-is_retry_of : (k : ℕ) → is_retry_of k j' ≡ true → is_retry_of k j ≡ true
  successor-is_retry_of k h = ground (arith, next.same_retry)

-- A row that passes through an UPDATE.
abbrev updated : (CrawlJob → Bool) → (CrawlJob → CrawlJob) → CrawlJob → CrawlJob
updated test change j = if test j then change j else j

updated-IsSuccessor :
    (test : CrawlJob → Bool) (change : CrawlJob → CrawlJob)
    → ((j : CrawlJob) → test j ≡ true → IsSuccessor j (change j))
    → (j : CrawlJob) → IsSuccessor j (updated test change j)
updated-IsSuccessor test change next j = elim (Bool-cases (test j)) [
  | inl hit ↦ rw hit (next j hit)
  | inr miss ↦ rw miss (IsSuccessor-refl j)
]

-- `UPDATE … WHERE test`, where each row that it changes goes to a successor.
module _ (test : CrawlJob → Bool) (change : CrawlJob → CrawlJob)
    (next : (j : CrawlJob) → test j ≡ true → IsSuccessor j (change j))
    (keeps_id : (j : CrawlJob) → (change j).id ≡ j.id) (db : Database) where
  pub update_jobs-IsConsistent : IsConsistent db → IsConsistent (update_jobs test change db)
  update_jobs-IsConsistent c = record {
    valid =
        All-update_where IsValidJob test change (λ j v hit. (next j hit).still_valid v) db.jobs
          c.valid;
    one_id = λ k. omega (
      arith,
      c.one_id k,
      count-update_where-le (has_id k) test change (λ j hit. successor-has_id (next j hit) k)
          db.jobs,
    );
    one_active = λ s. omega (
      arith,
      c.one_active s,
      count-update_where-le (active_on s) test change (λ j hit. successor-active_on (next j hit) s)
          db.jobs,
    );
    one_retry = λ k. omega (
      arith,
      c.one_retry k,
      count-update_where-le (is_retry_of k) test change
          (λ j hit. successor-is_retry_of (next j hit) k) db.jobs,
    );
    job_sequence = λ server.
        All-update_where (λ j. j.id < db.next_job_id) test change
          (λ j h hit. omega (arith, keeps_id j)) db.jobs (c.job_sequence server);
    one_source_id = c.one_source_id;
    one_code = c.one_code;
    source_sequence = c.source_sequence;
  }

  pub update_jobs-IsLater : IsLater db (update_jobs test change db)
  update_jobs-IsLater = record {
    kept = λ k j found. (
      updated test change j,
      get-update_where job_id test change keeps_id k db.jobs
          ∙ ap (Option.map (updated test change)) found,
      updated-IsSuccessor test change next j,
    );
  }

-- The same of an UPDATE by id, where the row that was found goes to a successor.
module _ (k : ℕ) (change : CrawlJob → CrawlJob) (db : Database) (j : CrawlJob)
    (found : get_job k db ≡ some j) (next : IsSuccessor j (change j))
    (keeps_id : (j : CrawlJob) → (change j).id ≡ j.id) where
  pub update_job-IsConsistent : IsConsistent db → IsConsistent (update_jobs (has_id k) change db)
  update_job-IsConsistent c = record {
    valid =
        All-update_one job_id change k IsValidJob db.jobs j (c.one_id k) found
          (next.still_valid (All-get IsValidJob job_id k db.jobs j c.valid found)) c.valid;
    one_id = λ i. omega (
      arith,
      c.one_id i,
      count-update_one-le job_id change k (has_id i) db.jobs j (c.one_id k) found
          (successor-has_id next i),
    );
    one_active = λ s. omega (
      arith,
      c.one_active s,
      count-update_one-le job_id change k (active_on s) db.jobs j (c.one_id k) found
          (successor-active_on next s),
    );
    one_retry = λ i. omega (
      arith,
      c.one_retry i,
      count-update_one-le job_id change k (is_retry_of i) db.jobs j (c.one_id k) found
          (successor-is_retry_of next i),
    );
    job_sequence = λ server.
        All-update_where (λ j. j.id < db.next_job_id) (has_id k) change
          (λ i h hit. omega (arith, keeps_id i)) db.jobs (c.job_sequence server);
    one_source_id = c.one_source_id;
    one_code = c.one_code;
    source_sequence = c.source_sequence;
  }

  same_row :
      (i : ℕ) (x : CrawlJob) → get_job i db ≡ some x → IsSuccessor x (updated (has_id k) change x)
  same_row i x e = elim (Bool-cases (has_id k x)) [
    | inl hit ↦
        let at_k : x.id ≡ k = ground arith in
        let same : i ≡ k = sym (id-get job_id i db.jobs x e) ∙ at_k in
        let row : j ≡ x = some-injective j x (sym found ∙ ap (λ n. get_job n db) (sym same) ∙ e) in
        rw hit (subst (λ y. IsSuccessor y (change y)) row next)
    | inr miss ↦ rw miss (IsSuccessor-refl x)
  ]

  pub update_job-IsLater : IsLater db (update_jobs (has_id k) change db)
  update_job-IsLater = record {
    kept = λ i x e. (
      updated (has_id k) change x,
      get-update_where job_id (has_id k) change keeps_id i db.jobs
          ∙ ap (Option.map (updated (has_id k) change)) e,
      same_row i x e,
    );
  }
