-- ===== src/Trigger/Dates.antt =====
-- The publish dates that a run reports: the one called first is not before the one called last.
use tender_phase.Prelude.{String, Bool, true, false, not, Option, none, some}
use tender_phase.Trigger.Pages.{PageStats, is_before}

-- Either no date has been seen, or the first is not before the last.
abbrev pub in_order : Option String → Option String → Bool
in_order (some f) (some l) = not (is_before f l)
in_order none none = true
in_order _ _ = false

-- The dates of a run so far.
abbrev are_in_order : PageStats → Bool
are_in_order p = in_order p.first_publish_date_seen p.last_publish_date_seen
