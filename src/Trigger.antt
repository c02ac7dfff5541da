-- ===== src/Trigger.antt =====
-- app/services/source_crawl_trigger_service.py and crawl_job_dispatch_service.py: requests for
-- crawls, their hand-over to worker processes, and the run of a worker.
pub mod Checks
pub mod Arguments
pub mod Dispatch
pub mod Handover
pub mod GivingUp
pub mod Conflicts
pub mod Requests
pub mod Pages
pub mod Reports
pub mod Running
pub mod Triggers
pub mod Ends
pub mod Bounds
pub mod Created
pub mod Retries
pub mod Results
pub mod Candidates
pub mod Dates
mod Tests
