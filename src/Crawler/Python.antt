-- ===== src/Crawler/Python.antt =====
-- What the crawler calls of Python's standard library and that only Python implements: Unicode
-- tables, hashing, calendars, decimal numbers and URLs. The program's own code takes it as a
-- parameter.
use tender_phase.Prelude.{ℕ, String, Bool, Option, some, List, ◌≡◌}
use tender_phase.Prelude.Text.{as_str}
use tender_phase.Clock.{Time}

-- `SplitResult`, without the fragment, which the program always drops
pub record UrlParts : Type 0 where
  pub scheme : String
  pub netloc : String
  pub path : String
  pub query : String

-- `none` stands for the exception that the caller catches. A datetime that has no zone is read as
-- UTC, as each caller does; `utc_date` is the midnight of a day that the calendar has; a Decimal is known by the text that `str` gives.
pub record Python : Type 0 where
  pub nfkc : String → String
  pub lower : String → String
  pub sha256_hexdigest : String → String
  pub fromisoformat : String → Option Time
  pub strptime : (text format : String) → Option Time
  pub utc_date : (year month day : ℕ) → Time
  pub decimal : String → Option String
  pub urlsplit : String → UrlParts
  pub urlparse_path : String → String
  pub urlunsplit : UrlParts → String
  pub parse_qsl : (query : String) (keep_blank_values : Bool) → List (String × String)
  pub urlencode : List (String × String) → String
  pub unquote : String → String
  pub guess_type : String → Option String

-- A hexadecimal digest is a text without spaces, and not an empty one.
pub record IsPython (python : Python) : Type 0 where
  pub digest :
      (s : String) → as_str (some (python.sha256_hexdigest s)) ≡ some (python.sha256_hexdigest s)
