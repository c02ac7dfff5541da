-- ===== src/Crawler.antt =====
-- crawler/tender_crawler: what the spiders yield, and how it is written to the database.
pub mod Python
pub mod Items
pub mod Rows
pub mod Keys
pub mod Sources
pub mod Documents
pub mod NoticeFields
pub mod Notices
pub mod VersionNumbers
pub mod Versions
pub mod Attachments
pub mod Writers
pub mod Deduplication
pub mod Invariant
pub mod Spans
pub mod Saves
pub mod Current
pub mod Found
pub mod Bodies
pub mod Keeping
pub mod Numbers
pub mod Losses
pub mod Settled
pub mod Twice
pub mod Samples
mod Tests
