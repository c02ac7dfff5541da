-- ===== src/Pages/Operations.antt =====
-- app/services/source_ops_service.py: what a source has done lately.
use tender_phase.Prelude.{
  ℕ, zero, suc, ◌-◌, String, Bool, true, false, ◌&&◌, ◌||◌, Option, none, some, List, [], ◌∷◌,
  str_eq, ◌==◌, leb, ltb, first, select, count, length, map, if◌then◌else◌, is_some,
}
use mathlib.Core.Option
use tender_phase.Prelude.Integers.{ℤ, pos, negsuc}
use tender_phase.Prelude.Outcome.{Outcome, returns, raises}
use tender_phase.Clock.{Time}
use tender_phase.Model.{
  JobStatus, succeeded, failed, partial, CrawlJob, CrawlError, SourceSite, Database,
}
use tender_phase.Table
use tender_phase.Session.{Error, Result}
use tender_phase.Jobs.Creation.{job_id}
use tender_phase.Jobs.Sweep.{reconcile_expired_jobs_in_session}
use tender_phase.Crawler.Rows.{TenderNotice, NoticeVersion, Archive, error_id}
use tender_phase.Health.Summary.{latest_job, unless_blank, of_source}
use tender_phase.Pages.NoticeRows.{Sql, hours}

pub record SourceOpsSummary : Type 0 where
  pub source_id : ℕ
  pub source_code : String
  pub source_name : String
  pub official_url : String
  pub is_active : Bool
  pub schedule_enabled : Bool
  pub schedule_days : ℕ
  pub today_crawl_job_count : ℕ
  pub today_success_count : ℕ
  pub today_failed_count : ℕ
  pub today_partial_count : ℕ
  pub today_new_notice_count : ℕ
  pub last_job_status : Option JobStatus
  pub last_job_finished_at : Option Time
  pub last_error_message : Option String
  pub last_retry_status : Option JobStatus
  pub last_retry_job_id : Option ℕ

-- What the call raises: an exception of the sweep, or the `ValueError` of `recent_hours`.
pub data OpsError : Type 0 where
  service : Error → OpsError
  recent_hours_too_small : OpsError

abbrev pub has_succeeded : JobStatus → Bool
has_succeeded succeeded = true
has_succeeded _ = false

abbrev pub has_failed : JobStatus → Bool
has_failed failed = true
has_failed _ = false

abbrev pub is_partial : JobStatus → Bool
is_partial partial = true
is_partial _ = false

pub record JobStats : Type 0 where
  pub job_count : ℕ
  pub success_count : ℕ
  pub failed_count : ℕ
  pub partial_count : ℕ

-- `_load_job_stats`, of one source
unfoldable pub load_job_stats : (since : Time) → ℕ → List CrawlJob → JobStats
load_job_stats since k jobs =
    let own = select (λ j. of_source k j && leb since j.created_at) jobs in
    record {
      job_count = length own;
      success_count = count (λ j. has_succeeded j.status) own;
      failed_count = count (λ j. has_failed j.status) own;
      partial_count = count (λ j. is_partial j.status) own;
    }

-- A notice that was created since, or of which a version was.
abbrev pub is_new : Sql → (since : Time) → List NoticeVersion → TenderNotice → Bool
is_new sql since versions n =
    leb since (sql.notice_created_at n.id)
    || ltb 0 (count (λ v. v.notice_id == n.id && leb since (sql.version_created_at v.id)) versions)

-- `_load_notice_counts`, of one source; a union has each notice once
unfoldable pub load_notice_count : Sql → (since : Time) → ℕ → Archive → ℕ
load_notice_count sql since k a =
    count (λ n. n.source_site_id == k && is_new sql since a.versions n) a.notices

-- `_load_latest_error_map`, of one source: the message of the error with the greatest id, if it is
-- not blank
unfoldable pub latest_error_message : ℕ → List CrawlError → Option String
latest_error_message k errors =
    let own = select (λ e. e.source_site_id == k) errors in
    if length own == 0
    then none
    else unless_blank
        (Option.map (λ e. e.error_message) (Table.get error_id (Table.max_id error_id own) errors))

-- `_load_latest_retry_map`, of one source
unfoldable pub latest_retry : ℕ → List CrawlJob → Option CrawlJob
latest_retry k jobs =
    let own = select (λ j. of_source k j && is_some j.retry_of_job_id) jobs in
    if length own == 0 then none else Table.get job_id (Table.max_id job_id own) jobs

abbrev pub or_text : String → String → String
or_text a b = if str_eq a "" then b else a

abbrev pub finished_at_of : Option CrawlJob → Option Time
finished_at_of none = none
finished_at_of (some j) = j.finished_at

unfoldable pub source_ops : Sql → (since : Time) → Archive → SourceSite → SourceOpsSummary
source_ops sql since a s =
    let stats = load_job_stats since s.id a.base.jobs in
    let latest = latest_job s.id a.base.jobs in
    let retry = latest_retry s.id a.base.jobs in
    record {
      source_id = s.id;
      source_code = s.code;
      source_name = s.name;
      official_url = or_text s.official_url s.base_url;
      is_active = s.is_active;
      schedule_enabled = s.schedule_enabled;
      schedule_days = s.schedule_days;
      today_crawl_job_count = stats.job_count;
      today_success_count = stats.success_count;
      today_failed_count = stats.failed_count;
      today_partial_count = stats.partial_count;
      today_new_notice_count = load_notice_count sql since s.id a;
      last_job_status = Option.map (λ j. j.status) latest;
      last_job_finished_at = finished_at_of latest;
      last_error_message = latest_error_message s.id a.errors;
      last_retry_status = Option.map (λ j. j.status) retry;
      last_retry_job_id = Option.map job_id retry;
    }

abbrev pub is_code : Option String → SourceSite → Bool
is_code none s = true
is_code (some c) s = str_eq c "" || str_eq s.code c

abbrev pub has_code : List String → SourceSite → Bool
has_code [] s = false
has_code (c ∷ cs) s = str_eq s.code c || has_code cs s

abbrev pub is_listed : Option (List String) → SourceSite → Bool
is_listed none s = true
is_listed (some cs) s = has_code cs s

abbrev pub code_before : Sql → SourceSite → SourceSite → Bool
code_before sql a b = sql.text_less a.code b.code

abbrev pub ops_since :
    Sql
    → (since : Time) → (source_code : Option String) → (source_codes : Option (List String))
    → Archive
    → List SourceOpsSummary
ops_since sql since source_code source_codes a = map (source_ops sql since a) (
    Table.order_by (code_before sql)
      (select (λ s. is_code source_code s && is_listed source_codes s) a.base.sources))

-- `timedelta(hours=n)` for a number that is at least 1
abbrev pub hours_of : ℤ → Outcome OpsError Time
hours_of (pos zero) = raises recent_hours_too_small
hours_of (pos (suc n)) = returns (hours (suc n))
hours_of (negsuc n) = raises recent_hours_too_small

abbrev pub ops_for :
    Sql
    → (now : Time) → (source_code : Option String) → (source_codes : Option (List String)) → Archive
    → Outcome OpsError Time
    → Outcome OpsError (List SourceOpsSummary)
ops_for sql now source_code source_codes a (raises e) = raises e
ops_for sql now source_code source_codes a (returns back) =
    returns (ops_since sql (now - back) source_code source_codes a)

abbrev pub swept_archive : Archive → Result (List CrawlJob × Database) → Outcome OpsError Archive
swept_archive a (raises e) = raises (service e)
swept_archive a (returns (expired, db)) = returns (record a { base = db })

abbrev pub ops_after :
    Sql
    → (now : Time) (recent_hours : ℤ) → (source_code : Option String)
    → (source_codes : Option (List String)) → Archive
    → Outcome OpsError Archive
    → Outcome OpsError (List SourceOpsSummary) × Archive
ops_after sql now recent_hours source_code source_codes before (raises e) = (raises e, before)
ops_after sql now recent_hours source_code source_codes before (returns a) =
    (ops_for sql now source_code source_codes a (hours_of recent_hours), a)

-- The sweep comes first, and what it has done stays whatever follows. A list of no codes selects no
-- source.
unfoldable pub list_source_ops :
    Sql
    → (now : Time) (recent_hours : ℤ) → (source_code : Option String)
    → (source_codes : Option (List String)) → Archive
    → Outcome OpsError (List SourceOpsSummary) × Archive
list_source_ops sql now recent_hours source_code source_codes a =
    ops_after sql now recent_hours source_code source_codes a
      (swept_archive a (reconcile_expired_jobs_in_session none now none a.base))

abbrev pub first_summary :
    Outcome OpsError (List SourceOpsSummary) → Outcome OpsError (Option SourceOpsSummary)
first_summary (raises e) = raises e
first_summary (returns items) = returns (first items)

unfoldable pub get_source_ops :
    Sql
    → (now : Time) (recent_hours : ℤ) → (source_code : String) → Archive
    → Outcome OpsError (Option SourceOpsSummary) × Archive
get_source_ops sql now recent_hours source_code a =
    let (items, a') = list_source_ops sql now recent_hours (some source_code) none a in
    (first_summary items, a')
