-- ===== src/Pages/Daily.antt =====
-- The counts of single days add up.
use tender_phase.Prelude.{ℕ, ◌+◌, Bool, ◌&&◌, List, [], ◌∷◌, leb, ltb, count}
use tender_phase.Clock.{Time}
use tender_phase.Pages.Overview.{DailyCount, day_number}

abbrev pub total : List DailyCount → ℕ
total [] = 0
total (d ∷ ds) = d.count + total ds

abbrev pub is_between : ℕ → ℕ → Time → Bool
is_between start_day n t = leb start_day (day_number t) && ltb (day_number t) (start_day + n)
