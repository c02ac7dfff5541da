-- ===== src/Pages/NoticeRows.antt =====
-- app/repositories/notice_repository.py: the rows of the list of notices and their keys.
use Prim.Native.Char.{Char, code}
use Prim.Native.String.{◌++◌}
use tender_phase.Prelude.{
  ℕ, ◌+◌, ◌*◌, String, Bool, true, false, ◌&&◌, ◌||◌, Option, none, some, List, [], ◌∷◌, str_eq,
  ◌==◌, leb, ltb, count, or_else, or_option, if◌then◌else◌,
}
use tender_phase.Prelude.Text.{strip}
use tender_phase.Prelude.Decimal.{print_nat}
use tender_phase.Clock.{Time, seconds, days}
use tender_phase.Model.{SourceSite}
use tender_phase.Table
use tender_phase.Jobs.Creation.{source_id}
use tender_phase.Crawler.Rows.{NoticeType, TenderNotice, NoticeVersion, Archive}
use tender_phase.Crawler.NoticeFields.{type_text}
use tender_phase.Pages.Lists.{asks}

-- What the database decides: matching by LIKE without regard to case, the order of texts and of
-- amounts, and the columns `created_at` that it fills itself, by the ids of the rows.
pub record Sql : Type 0 where
  pub ilike : (value pattern : String) → Bool
  pub text_less : String → String → Bool
  pub amount_less : String → String → Bool
  pub notice_created_at : ℕ → Time
  pub version_created_at : ℕ → Time

pub record NoticeQueryFilters : Type 0 where
  pub keyword : Option String
  pub source_code : Option String
  pub notice_type : Option String
  pub region : Option String
  pub recent_hours : Option ℕ
  pub date_from : Option ℕ
  pub date_to : Option ℕ

-- A row of the query; `NoticeListItemRecord` adds the number of duplicates.
pub record NoticeRow : Type 0 where
  pub id : ℕ
  pub source_code : String
  pub source_name : String
  pub title : String
  pub notice_type : NoticeType
  pub issuer : Option String
  pub region : Option String
  pub published_at : Option Time
  pub deadline_at : Option Time
  pub budget_amount : Option String
  pub current_version_id : Option ℕ
  pub dedup_key : String
  pub is_recent_new : Bool

-- `trim` of SQL: only blanks are taken away.
unfoldable pub ltrim : String → String
ltrim String.[] = String.[]
ltrim (String.◌∷◌ c s) = let rest = ltrim s in if code c == 32 then rest else String.◌∷◌ c s

abbrev before_trimmed : Char → String → String
before_trimmed c String.[] = if code c == 32 then String.[] else String.◌∷◌ c String.[]
before_trimmed c (String.◌∷◌ d s) = String.◌∷◌ c (String.◌∷◌ d s)

unfoldable pub rtrim : String → String
rtrim String.[] = String.[]
rtrim (String.◌∷◌ c s) = before_trimmed c (rtrim s)

abbrev pub trim : String → String
trim s = rtrim (ltrim s)

abbrev pub unless_empty : String → Option String
unless_empty s = if str_eq s "" then none else some s

module _ (trimmed : String → String) where
  abbrev pub present : Option String → Option String
  present none = none
  present (some s) = unless_empty (trimmed s)

  abbrev pub text_or_empty : Option String → String
  text_or_empty none = ""
  text_or_empty (some s) = trimmed s

  abbrev pub fallback_key : TenderNotice → String
  fallback_key n =
      "fallback:"
      ++ print_nat n.source_site_id
      ++ "|"
      ++ text_or_empty n.external_id
      ++ "|"
      ++ text_or_empty n.project_code
      ++ "|"
      ++ trimmed n.title

  abbrev pub key_by : TenderNotice → String
  key_by n =
      or_else
        (or_option (present n.dedup_key)
          (or_option (present n.source_duplicate_key) (present n.dedup_hash)))
        (fallback_key n)

-- The key that the database computes, and the one that Python computes.
abbrev pub dedup_key_expr : TenderNotice → String
dedup_key_expr = key_by trim

abbrev pub dedup_key_for_notice : TenderNotice → String
dedup_key_for_notice = key_by strip

abbrev pub hours : ℕ → Time
hours n = seconds (3600 * n)

-- `_to_start_of_day` and `_to_end_of_day`, of a day counted from 1970
abbrev pub start_of_day : ℕ → Time
start_of_day day = days day

abbrev pub asks_day_from : Option ℕ → Option Time → Bool
asks_day_from none t = true
asks_day_from (some day) none = false
asks_day_from (some day) (some t) = leb (start_of_day day) t

-- The last microsecond of the day is the one before the next day.
abbrev pub asks_day_to : Option ℕ → Option Time → Bool
asks_day_to none t = true
asks_day_to (some day) none = false
asks_day_to (some day) (some t) = ltb t (start_of_day (day + 1))

-- A condition on a column that may be NULL.
abbrev pub asks_column : Option String → Option String → Bool
asks_column none column = true
asks_column (some s) none = str_eq s ""
asks_column (some s) (some t) = str_eq s "" || str_eq t s

module _ (sql : Sql) (now : Time) where
  -- The notice, or a version of it, was created in the last hours.
  abbrev pub is_recent : ℕ → List NoticeVersion → TenderNotice → Bool
  is_recent n versions notice =
      leb now (sql.notice_created_at notice.id + hours n)
      || ltb 0 (
          count (λ v. v.notice_id == notice.id && leb now (sql.version_created_at v.id + hours n))
            versions)

  abbrev pub is_like : String → Option String → Bool
  is_like pattern none = false
  is_like pattern (some t) = sql.ilike t pattern

  abbrev pub has_keyword : Option String → TenderNotice → Bool
  has_keyword keyword n =
      let k = strip (or_else keyword "") in
      let pattern = "%" ++ k ++ "%" in
      str_eq k ""
      || sql.ilike n.title pattern
      || is_like pattern n.issuer
      || is_like pattern n.region

  abbrev pub asks_recent : Option ℕ → List NoticeVersion → TenderNotice → Bool
  asks_recent none versions n = true
  asks_recent (some k) versions n = is_recent k versions n

  abbrev pub notice_fits :
      NoticeQueryFilters → List NoticeVersion → SourceSite → TenderNotice → Bool
  notice_fits f versions s n =
      has_keyword f.keyword n
      && asks f.source_code s.code
      && asks f.notice_type (type_text n.notice_type)
      && asks_column f.region n.region
      && asks_recent f.recent_hours versions n
      && asks_day_from f.date_from n.published_at
      && asks_day_to f.date_to n.published_at

  abbrev pub row_of : List NoticeVersion → SourceSite → TenderNotice → NoticeRow
  row_of versions s n = record {
    id = n.id;
    source_code = s.code;
    source_name = s.name;
    title = n.title;
    notice_type = n.notice_type;
    issuer = n.issuer;
    region = n.region;
    published_at = n.published_at;
    deadline_at = n.deadline_at;
    budget_amount = n.budget_amount;
    current_version_id = n.current_version_id;
    dedup_key = dedup_key_expr n;
    is_recent_new = is_recent 24 versions n;
  }

  abbrev pub row_if :
      NoticeQueryFilters
      → List NoticeVersion
      → TenderNotice
      → Option SourceSite
      → List NoticeRow
      → List NoticeRow
  row_if f versions n none rest = rest
  row_if f versions n (some s) rest =
      if notice_fits f versions s n then row_of versions s n ∷ rest else rest

  abbrev pub rows_of :
      NoticeQueryFilters → List SourceSite → List NoticeVersion → List TenderNotice → List NoticeRow
  rows_of f sources versions [] = []
  rows_of f sources versions (n ∷ ns) =
      row_if f versions n (Table.get source_id n.source_site_id sources)
        (rows_of f sources versions ns)

  -- `_build_base_rows_query`
  unfoldable pub build_base_rows_query : NoticeQueryFilters → Archive → List NoticeRow
  build_base_rows_query f a = rows_of f a.base.sources a.versions a.notices
