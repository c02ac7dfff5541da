-- ===== src/Trigger/Ends.antt =====
-- What a worker's run does to the jobs, and how it leaves its own.
use tender_phase.Prelude.Outcome.{Outcome}
