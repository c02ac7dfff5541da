-- ===== src/Jobs/Rows.antt =====
-- Each change of a row takes a job to a successor.
use tender_phase.Prelude.{true, ◌≡◌, refl, arith}
use tender_phase.Clock.{Time}
use tender_phase.Model.{
  JobStatus, JobMetrics, CrawlJob, is_active, is_final, is_pending, is_running,
}
use tender_phase.Session.{ok}
use tender_phase.Jobs.Rules.{ensure_transition}
use tender_phase.Jobs.Lifecycle.{is_claimable, claim_row, Details, start_row, heartbeat_row}
use tender_phase.Jobs.Stats.{stats_row}
use tender_phase.Jobs.Finish.{finish_row}
use tender_phase.Jobs.Sweep.{expire_row}
use tender_phase.Jobs.Invariant.{IsSuccessor, may_become, may_become_self}

pub claim_row-IsSuccessor :
    (moment deadline : Time) (j : CrawlJob)
    → is_claimable moment j ≡ true
    → IsSuccessor j (claim_row moment deadline j)
claim_row-IsSuccessor moment deadline j h = record {
  same_id = refl;
  same_source = refl;
  same_type = refl;
  same_retry = refl;
  allowed = may_become_self j.status;
  still_valid = λ v. ground arith;
}

pub start_row-IsSuccessor :
    (moment now deadline : Time) (d : Details) (j : CrawlJob)
    → is_pending j.status ≡ true
    → IsSuccessor j (start_row moment now deadline d j)
start_row-IsSuccessor moment now deadline d j h = record {
  same_id = refl;
  same_source = refl;
  same_type = refl;
  same_retry = refl;
  allowed = ground arith;
  still_valid = λ v. ground arith;
}

pub heartbeat_row-IsSuccessor :
    (moment deadline : Time) (j : CrawlJob)
    → is_active j.status ≡ true
    → IsSuccessor j (heartbeat_row moment deadline j)
heartbeat_row-IsSuccessor moment deadline j h = record {
  same_id = refl;
  same_source = refl;
  same_type = refl;
  same_retry = refl;
  allowed = may_become_self j.status;
  still_valid = λ v. ground arith;
}

pub stats_row-IsSuccessor : (d : JobMetrics) (j : CrawlJob) → IsSuccessor j (stats_row d j)
stats_row-IsSuccessor d j = record {
  same_id = refl;
  same_source = refl;
  same_type = refl;
  same_retry = refl;
  allowed = may_become_self j.status;
  still_valid = λ v. ground arith;
}

-- `_ensure_transition` passes a move of the state machine.
pub ensure_transition-may_become :
    (s t : JobStatus) → ensure_transition s t ≡ ok tt → may_become s t ≡ true
unfolding ensure_transition
ensure_transition-may_become s t h = ground arith

pub finish_row-IsSuccessor :
    (now : Time) (target : JobStatus) (d : Details) (j : CrawlJob)
    → is_final target ≡ true
    → may_become j.status target ≡ true
    → IsSuccessor j (finish_row now target d j)
finish_row-IsSuccessor now target d j final h = record {
  same_id = refl;
  same_source = refl;
  same_type = refl;
  same_retry = refl;
  allowed = h;
  still_valid = λ v. ground arith;
}

pub expire_row-IsSuccessor :
    (now : Time) (j : CrawlJob) → is_running j.status ≡ true → IsSuccessor j (expire_row now j)
expire_row-IsSuccessor now j h = record {
  same_id = refl;
  same_source = refl;
  same_type = refl;
  same_retry = refl;
  allowed = ground arith;
  still_valid = λ v. ground arith;
}
