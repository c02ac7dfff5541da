-- ===== src/Jobs/Guarded.antt =====
-- `UPDATE … WHERE id = k AND test` followed by a read of the row, as claims and starts do it.
use tender_phase.Prelude.{
  ℕ, ◌+◌, ◌<◌, Bool, true, false, ◌&&◌, Option, none, some, ◌≡◌, ◌∙◌, arith, count, ◌==◌,
  if◌then◌else◌, ap,
}
use mathlib.Core.Option
use tender_phase.Prelude.Integers.{pos}
use tender_phase.Clock.{Time, seconds}
use tender_phase.Model.{CrawlJob, Database}
use tender_phase.Session.{ok}
use tender_phase.Table.Laws.{get-update_where, id-get}
use tender_phase.Table.One.{count-and-get}
use tender_phase.Jobs.Rules.{calculate_lease_expires_at}
use tender_phase.Jobs.Lifecycle.{get_job, has_id, update_jobs}
use tender_phase.Jobs.Creation.{job_id}
use tender_phase.Jobs.Invariant.{IsConsistent}

pub lease_ok :
    (moment : Time) (l : ℕ)
    → 0 < l
    → calculate_lease_expires_at moment (pos l) ≡ ok (moment + seconds l)
unfolding calculate_lease_expires_at
lease_ok moment l h = ground arith

module _ (k : ℕ) (q : CrawlJob → Bool) (change : CrawlJob → CrawlJob) (db : Database)
    (c : IsConsistent db) (keep : (x : CrawlJob) → (change x).id ≡ x.id) where
  abbrev pub guarded : CrawlJob → Bool
  guarded x = has_id k x && q x

  -- `UPDATE … WHERE id = k AND q`, and the row that is read back if one was changed.
  abbrev pub guarded_update : Option CrawlJob × Database
  guarded_update =
      let db' = update_jobs guarded change db in
      if count guarded db.jobs == 0 then (none, db) else (get_job k db', db')

  pub get-guarded_update :
      (j : CrawlJob)
      → get_job k db ≡ some j
      → q j ≡ true
      → get_job k (update_jobs guarded change db) ≡ some (change j)
  get-guarded_update j found passes =
      let at_k = id-get job_id k db.jobs j found in
      let hit : (if guarded j then change j else j) ≡ change j = ground arith in
      get-update_where job_id guarded change keep k db.jobs
      ∙ ap (Option.map (λ x. if guarded x then change x else x)) found
      ∙ ap some hit

  pub guarded_update_found :
      (j : CrawlJob)
      → get_job k db ≡ some j
      → q j ≡ true
      → guarded_update ≡ (some (change j), update_jobs guarded change db)
  guarded_update_found j found passes =
      let row = get-guarded_update j found passes in
      let hits : (count guarded db.jobs == 0) ≡ false =
        ground (arith, count-and-get job_id k q db.jobs (c.one_id k)) in
      rw (hits, row)

  pub guarded_update_missing : get_job k db ≡ none → guarded_update ≡ (none, db)
  guarded_update_missing missing =
      let hits : (count guarded db.jobs == 0) ≡ true =
        ground (arith, count-and-get job_id k q db.jobs (c.one_id k)) in
      rw hits

  pub guarded_update_refused :
      (j : CrawlJob) → get_job k db ≡ some j → q j ≡ false → guarded_update ≡ (none, db)
  guarded_update_refused j found fails =
      let hits : (count guarded db.jobs == 0) ≡ true =
        ground (arith, count-and-get job_id k q db.jobs (c.one_id k)) in
      rw hits
