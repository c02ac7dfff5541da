-- ===== src/Jobs/Claims.antt =====
-- `claim_pending_job`: which dispatcher may hand a pending job to a worker.
use tender_phase.Prelude.{
  ℕ, ◌+◌, ◌<◌, true, false, ◌&&◌, Option, none, some, ◌≡◌, refl, ◌∙◌, arith, or_else, if◌then◌else◌,
  Bool-cases, Option-cases, inl, inr, ap,
}
use tender_phase.Prelude.Integers.{pos}
use tender_phase.Clock.{Time, seconds}
use tender_phase.Model.{CrawlJob, Database}
use tender_phase.Session.{ok, commit_some}
use tender_phase.Jobs.Lifecycle.{
  get_job, has_id, update_jobs, is_claimable, claim_row, claim_pending_job_in_session,
}
use tender_phase.Jobs.Service.{CrawlJobSnapshot, snapshot, claim_pending_job}
use tender_phase.Jobs.Guarded.{
  lease_ok, get-guarded_update, guarded_update_found, guarded_update_missing,
  guarded_update_refused,
}
use tender_phase.Jobs.Invariant.{IsConsistent}
use tender_phase.Jobs.History.{Call, run_call, run_call-Next}

module _ (k : ℕ) (picked_at : Option Time) (now : Time) (l : ℕ) (db : Database)
    (c : IsConsistent db) (positive : 0 < l) where
  abbrev pub claimed : Database
  claimed =
      update_jobs (λ j. has_id k j && is_claimable (or_else picked_at now) j)
        (claim_row (or_else picked_at now) (or_else picked_at now + seconds l)) db

  pub claim_found :
      (j : CrawlJob)
      → get_job k db ≡ some j
      → is_claimable (or_else picked_at now) j ≡ true
      → claim_pending_job k picked_at now (pos l) db ≡ (
        ok (
            some
              (snapshot (claim_row (or_else picked_at now) (or_else picked_at now + seconds l) j))),
        claimed,
      )
  unfolding claim_pending_job claim_pending_job_in_session
  claim_found j found passes = rw (lease_ok (or_else picked_at now) l positive) (
      ap (λ p. commit_some snapshot (ok p) db)
        (guarded_update_found k (is_claimable (or_else picked_at now))
          (claim_row (or_else picked_at now) (or_else picked_at now + seconds l)) db c (λ x. refl) j
          found passes))

  claim_refused :
      (j : CrawlJob)
      → get_job k db ≡ some j
      → is_claimable (or_else picked_at now) j ≡ false
      → claim_pending_job k picked_at now (pos l) db ≡ (ok none, db)
  unfolding claim_pending_job claim_pending_job_in_session
  claim_refused j found fails = rw (lease_ok (or_else picked_at now) l positive) (
      ap (λ p. commit_some snapshot (ok p) db)
        (guarded_update_refused k (is_claimable (or_else picked_at now))
          (claim_row (or_else picked_at now) (or_else picked_at now + seconds l)) db c (λ x. refl) j
          found fails))

  claim_missing : get_job k db ≡ none → claim_pending_job k picked_at now (pos l) db ≡ (ok none, db)
  unfolding claim_pending_job claim_pending_job_in_session
  claim_missing missing = rw (lease_ok (or_else picked_at now) l positive) (
      ap (λ p. commit_some snapshot (ok p) db)
        (guarded_update_missing k (is_claimable (or_else picked_at now))
          (claim_row (or_else picked_at now) (or_else picked_at now + seconds l)) db c (λ x. refl)
          missing))

  -- If a claim returned a job, the job was claimable and the table has it as it was claimed.
  claim_returned :
      (s : CrawlJobSnapshot)
      → (claim_pending_job k picked_at now (pos l) db).0 ≡ ok (some s)
      → (j : CrawlJob) × (get_job k db ≡ some j) × (is_claimable (or_else picked_at now) j ≡ true)
  claim_returned s h = elim (Option-cases (get_job k db)) [
    | inl missing ↦ absurd (cc (claim_missing missing))
    | inr (j, found) ↦ elim (Bool-cases (is_claimable (or_else picked_at now) j)) [
      | inl passes ↦ (j, found, passes)
      | inr fails ↦ absurd (cc (claim_refused j found fails))
    ]
  ]

-- With consistent tables and a lease of a second or more, a claim returns the job exactly if it is
-- there, pending, and has never been claimed or has no lease that holds at the moment of the claim;
-- it then has the moment as its time of picking and heartbeat, and the lease from there. Otherwise
-- it returns nothing and changes nothing.
pub claim_pending_job_lem :
    (k : ℕ) (picked_at : Option Time) (now : Time) (l : ℕ) (db : Database)
    → IsConsistent db
    → 0 < l
    → claim_pending_job k picked_at now (pos l) db ≡ (elim (get_job k db) [
      | none ↦ (ok none, db)
      | some j ↦
          let moment = or_else picked_at now in
          let row = claim_row moment (moment + seconds l) in
          if is_claimable moment j
          then (
            ok (some (snapshot (row j))),
            update_jobs (λ x. has_id k x && is_claimable moment x) row db,
          )
          else (ok none, db)
    ])
claim_pending_job_lem k picked_at now l db c positive = elim (Option-cases (get_job k db)) [
  | inl missing ↦ rw missing (claim_missing k picked_at now l db c positive missing)
  | inr (j, found) ↦ elim (Bool-cases (is_claimable (or_else picked_at now) j)) [
    | inl passes ↦ rw (found, passes) (claim_found k picked_at now l db c positive j found passes)
    | inr fails ↦ rw (found, fails) (claim_refused k picked_at now l db c positive j found fails)
  ]
]

-- After a claim that returned the job, another claim before the lease has run out returns nothing
-- and changes nothing, whoever makes it.
pub claim_exclusive :
    (k : ℕ) (first second : Option Time) (now now' : Time) (l l' : ℕ) (db : Database)
    (s : CrawlJobSnapshot)
    → IsConsistent db
    → 0 < l
    → 0 < l'
    → (claim_pending_job k first now (pos l) db).0 ≡ ok (some s)
    → or_else second now' < or_else first now + seconds l
    → claim_pending_job k second now' (pos l') (claim_pending_job k first now (pos l) db).1
      ≡ (ok none, (claim_pending_job k first now (pos l) db).1)
unfolding run_call
claim_exclusive k first second now now' l l' db s c p p' h early =
    let (j, found, passes) = claim_returned k first now l db c p s h in
    let e = claim_found k first now l db c p j found passes in
    let moment = or_else first now in
    let row =
      get-guarded_update k (is_claimable moment) (claim_row moment (moment + seconds l)) db c
        (λ x. refl) j found passes in
    let found' = ap (λ r. get_job k r.1) e ∙ row in
    claim_refused k second now' l' (claim_pending_job k first now (pos l) db).1
      (run_call-Next (Call.claim k first now (pos l)) db c).0 p'
      (claim_row moment (moment + seconds l) j) found' (ground arith)
