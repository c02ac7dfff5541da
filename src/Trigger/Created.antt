-- ===== src/Trigger/Created.antt =====
-- `_create_crawl_job`: the job that it leaves in the table.
use tender_phase.Prelude.{some, ◌≡◌}
use tender_phase.Prelude.Outcome.{Outcome, returns, raises}
use tender_phase.Model.{CrawlJob, Database}
use tender_phase.Table
use tender_phase.Session.{Result}
use tender_phase.Jobs.Lifecycle.{get_job}
use tender_phase.Jobs.Creation.{JobRequest}
use tender_phase.Jobs.Invariant.{IsConsistent}
use tender_phase.Jobs.Keeps.{Keeps}
use tender_phase.Jobs.Service.{CrawlJobSnapshot, snapshot}
use tender_phase.Trigger.Conflicts.{TriggerError}

-- A creation that returns has put a job into the table that retries the one asked for.
abbrev Inserts : JobRequest → Result (CrawlJob × Database) → Type 0
Inserts r (returns (j, db')) = (j.retry_of_job_id ≡ r.retry_of_job_id) × (get_job j.id db' ≡ some j)
Inserts r (raises e) = Unit

-- How a creation ends: with a job that is in the table as the caller gets it, or with the database
-- as it was.
abbrev pub IsCreated :
    JobRequest → Database → Outcome TriggerError CrawlJobSnapshot × Database → Type 0
IsCreated r db (returns s, db') =
    IsConsistent db'
    × ((j : CrawlJob) × (get_job j.id db' ≡ some j)
        × (s ≡ snapshot j)
        × (j.retry_of_job_id ≡ r.retry_of_job_id))
IsCreated r db (raises e, db') = db' ≡ db
