-- ===== src/Pages.antt =====
-- What the pages show: the lists of jobs, errors and raw documents, and the progress of a job.
pub mod Lists
pub mod Jobs
pub mod Progress
pub mod Relations
pub mod Errors
pub mod Documents
pub mod NoticeRows
pub mod Notices
pub mod NoticeDetail
mod Unique
pub mod Operations
pub mod Overview
mod Daily
mod Newest
mod Windows
mod Stale
mod Tests
