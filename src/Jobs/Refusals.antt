-- ===== src/Jobs/Refusals.antt =====
-- `create_job` for a source that is busy.
use tender_phase.Table
