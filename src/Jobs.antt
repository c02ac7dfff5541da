-- ===== src/Jobs.antt =====
-- app/services/crawl_job_service.py: the life of a crawl job.
--
-- `Rules` has the tables of statuses and types and the checks of arguments, `Lifecycle` the
-- operations on one job inside a session, `Sweep` the expiry of running jobs whose lease ran out,
-- `Creation` the two inserts, and `Service` the public methods, each a transaction.
pub mod Rules
pub mod Lifecycle
pub mod Stats
pub mod Finish
pub mod Sweep
pub mod Creation
pub mod Service
pub mod Invariant
pub mod Updates
pub mod Rows
pub mod Keeps
pub mod Preservation
pub mod Expiry
pub mod Found
pub mod Sources
pub mod NewJobs
pub mod History
pub mod Guarded
pub mod Claims
pub mod Starts
pub mod Ends
pub mod Leases
pub mod Counters
pub mod Refusals
pub mod Samples
mod Tests
mod EndTests
