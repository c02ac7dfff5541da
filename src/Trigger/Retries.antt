-- ===== src/Trigger/Retries.antt =====
-- `queue_retry_crawl_for_job`: a job is retried once.
use tender_phase.Prelude.{ℕ, Bool, true, false, some, ◌≡◌}
use tender_phase.Prelude.Integers.{ℤ}
use tender_phase.Prelude.Outcome.{Outcome, returns, raises}
use tender_phase.Clock.{Time}
use tender_phase.Model.{CrawlJob, SourceSite, Database}
use tender_phase.Table
use tender_phase.Jobs.Lifecycle.{get_job}
use tender_phase.Jobs.Creation.{is_retry_of}
use tender_phase.Jobs.Invariant.{IsConsistent}
use tender_phase.Jobs.Service.{CrawlJobSnapshot}
use tender_phase.Trigger.Dispatch.{Machine, Dispatcher, DispatchError, dispatch}
use tender_phase.Trigger.Conflicts.{TriggerError}

-- There is a job in the table that retries `k`.
abbrev HasRetry : ℕ → Database → Type 0
HasRetry k db = (j : CrawlJob) × (get_job j.id db ≡ some j) × (is_retry_of k j ≡ true)

abbrev pub is_raised {ℓ} : {A : Type ℓ} → Outcome TriggerError A → Bool
is_raised (returns a) = false
is_raised (raises e) = true

-- How a request for a retry of `k` ends.
abbrev Retries : ℕ → Outcome TriggerError CrawlJobSnapshot × Database → Type 0
Retries k (returns s, db') = IsConsistent db' × HasRetry k db'
Retries k (raises e, db') = Unit

module _ (machine : Machine) (n : ℤ) (claimed_at failed_at : Time) where
  abbrev d : Dispatcher DispatchError
  d = dispatch machine n claimed_at failed_at

-- The id of the job that is returned.
abbrev returned_id : ℕ → Outcome TriggerError (CrawlJob × SourceSite) → ℕ
returned_id k (returns (j, s)) = j.id
returned_id k (raises e) = k
