-- ===== src/Pages/Stale.antt =====
-- What a page says of a job, and what the sweep and the dispatcher do with it.
use tender_phase.Prelude.{not, ◌&&◌, ◌≡◌, arith}
use tender_phase.Clock.{Time}
use tender_phase.Model.{CrawlJob, is_active, is_pending, is_running}
use tender_phase.Jobs.Sweep.{is_expired}
use tender_phase.Jobs.Lifecycle.{is_claimable}
use tender_phase.Pages.Progress.{build_crawl_job_progress, is_stale}

-- A job is shown as active exactly if its status is an active one and a sweep at that moment would
-- not fail it; it is shown as running and stale exactly if the sweep would fail it; and a pending
-- job that is shown as stale may be claimed by a dispatcher.
pub progress_agrees :
    (j : CrawlJob) (now : Time)
    → ((build_crawl_job_progress j now).is_active ≡ (is_active j.status && not (is_expired now j)))
      × (((build_crawl_job_progress j now).is_stale && is_running j.status) ≡ is_expired now j)
      × (((build_crawl_job_progress j now).is_stale && is_pending j.status && is_claimable now j)
          ≡ ((build_crawl_job_progress j now).is_stale && is_pending j.status))
unfolding build_crawl_job_progress is_stale
progress_agrees j now = ground arith
