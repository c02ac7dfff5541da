-- ===== src/Crawler/Deduplication.antt =====
-- crawler/tender_crawler/services/deduplication.py and utils.py: the keys by which two notices, two
-- documents or two files are taken to be one.
pub mod Texts
pub mod Dates
pub mod Budgets
pub mod Urls
pub mod Seeds
pub mod Normal
pub mod Lawful
pub mod Nearest
pub mod Across
