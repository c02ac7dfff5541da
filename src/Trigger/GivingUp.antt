-- ===== src/Trigger/GivingUp.antt =====
-- The dispatcher on a machine where no worker process can be started.
use tender_phase.Prelude.{ℕ, some, ◌≡◌}
use mathlib.Core.Option
use tender_phase.Prelude.Outcome.{Outcome, returns}
use tender_phase.Model.{failed, CrawlJob, Database}
use tender_phase.Jobs.Lifecycle.{get_job}
use tender_phase.Trigger.Dispatch.{DispatchError}

-- How a dispatch ends that gives the job up.
pub record IsGivenUp (k : ℕ) (result : Outcome DispatchError (Unit {0}) × Database) : Type 0 where
  pub quiet : result.0 ≡ returns tt
  pub job : CrawlJob
  pub found : get_job k result.1 ≡ some job
  pub has_failed : job.status ≡ failed
