-- ===== src/Crawler/Deduplication/Lawful.antt =====
-- `DeduplicationService` gives the writers what they rely on.
use tender_phase.Prelude.{String, some, ◌≡◌}
use tender_phase.Prelude.Text.{as_str}
use tender_phase.Crawler.Python.{Python}

-- A text that `_as_str` leaves alone.
abbrev IsStripped : String → Type 0
IsStripped s = as_str (some s) ≡ some s
