-- ===== src/Schedule.antt =====
-- app/services/source_schedule_service.py: the crawls that the program starts by itself.
pub mod Runtime
pub mod Plans
mod Tests
