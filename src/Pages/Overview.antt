-- ===== src/Pages/Overview.antt =====
-- app/repositories/stats_repository.py: the numbers on the first page.
use tender_phase.Prelude.{
  ℕ, zero, suc, ◌+◌, ◌-◌, ◌/◌, String, Bool, ◌&&◌, ◌||◌, Option, none, List, [], ◌∷◌, ◌==◌, leb,
  ltb, select, count, length, map, take,
}
use tender_phase.Clock.{Time, days, iso_date}
use tender_phase.Model.{JobStatus, JobType, CrawlJob, Database, is_running}
use tender_phase.Table
use tender_phase.Session.{Result, ok, ◌>>=◌}
use tender_phase.Jobs.Sweep.{reconcile_expired_jobs_in_session}
use tender_phase.Crawler.Rows.{Archive}
use tender_phase.Health.Summary.{went_wrong}
use tender_phase.Pages.Lists.{Sourced, joined}
use tender_phase.Pages.Jobs.{job_source}
use tender_phase.Pages.Errors.{CrawlErrorListItem, error_rows, error_before, to_error_item}
use tender_phase.Pages.NoticeRows.{Sql, hours}
use tender_phase.Pages.Operations.{is_new}

pub record DailyCount : Type 0 where
  pub date : String
  pub count : ℕ

pub record RecentJobSummary : Type 0 where
  pub id : ℕ
  pub source_code : String
  pub status : JobStatus
  pub job_type : JobType
  pub started_at : Option Time
  pub finished_at : Option Time
  pub error_count : ℕ
  pub message : Option String

pub record StatsOverview : Type 0 where
  pub source_count : ℕ
  pub active_source_count : ℕ
  pub crawl_job_count : ℕ
  pub crawl_job_running_count : ℕ
  pub notice_count : ℕ
  pub today_new_notice_count : ℕ
  pub recent_24h_new_notice_count : ℕ
  pub raw_document_count : ℕ
  pub crawl_error_count : ℕ
  pub recent_7d_crawl_job_counts : List DailyCount
  pub recent_7d_notice_counts : List DailyCount
  pub recent_7d_crawl_error_counts : List DailyCount
  pub recent_failed_or_partial_jobs : List RecentJobSummary
  pub recent_crawl_errors : List CrawlErrorListItem

-- The number of the day of a moment, from 1970.
abbrev pub day_number : Time → ℕ
day_number t = t / days 1

-- The moments of a table on the days from `start_day` on, day by day.
unfoldable pub daily_counts : (n start_day : ℕ) → List Time → List DailyCount
daily_counts zero start_day moments = []
daily_counts (suc n) start_day moments =
    record { date = iso_date start_day; count = count (λ t. day_number t == start_day) moments }
    ∷ daily_counts n (start_day + 1) moments

-- `_get_recent_daily_counts`; a day at the start of 1970 has no earlier days here.
unfoldable pub get_recent_daily_counts :
    (now : Time) (recent_days : ℕ) → List Time → List DailyCount
get_recent_daily_counts now recent_days moments =
    daily_counts recent_days (day_number now - (recent_days - 1)) moments

abbrev pub created_before : Sourced CrawlJob → Sourced CrawlJob → Bool
created_before a b =
    ltb b.row.created_at a.row.created_at
    || (a.row.created_at == b.row.created_at && leb b.row.id a.row.id)

abbrev pub job_summary : Sourced CrawlJob → RecentJobSummary
job_summary r = record {
  id = r.row.id;
  source_code = r.source_code;
  status = r.row.status;
  job_type = r.row.job_type;
  started_at = r.row.started_at;
  finished_at = r.row.finished_at;
  error_count = r.row.metrics.error_count;
  message = r.row.message;
}

unfoldable pub recent_failed_or_partial_jobs : (limit : ℕ) → Database → List RecentJobSummary
recent_failed_or_partial_jobs limit db = map job_summary (
    take limit (
      Table.order_by created_before
        (select (λ r. went_wrong r.row.status) (joined job_source db.sources db.jobs))))

unfoldable pub recent_crawl_errors : (limit : ℕ) → Archive → List CrawlErrorListItem
recent_crawl_errors limit a =
    map to_error_item (take limit (Table.order_by error_before (error_rows a)))

-- `_count_recent_notice_updates`: a notice that was created since, or of which a version was; every
-- version has a notice.
unfoldable pub count_recent_notice_updates : Sql → (start_at : Time) → Archive → ℕ
count_recent_notice_updates sql start_at a = count (is_new sql start_at a.versions) a.notices

abbrev pub overview_of :
    Sql
    → (now : Time) (recent_days recent_failed_job_limit recent_error_limit : ℕ) → Archive
    → StatsOverview
overview_of sql now recent_days recent_failed_job_limit recent_error_limit a = record {
  source_count = length a.base.sources;
  active_source_count = count (λ s. s.is_active) a.base.sources;
  crawl_job_count = length a.base.jobs;
  crawl_job_running_count = count (λ j. is_running j.status) a.base.jobs;
  notice_count = length a.notices;
  today_new_notice_count = count_recent_notice_updates sql (days (day_number now)) a;
  recent_24h_new_notice_count = count_recent_notice_updates sql (now - hours 24) a;
  raw_document_count = length a.raw_documents;
  crawl_error_count = length a.errors;
  recent_7d_crawl_job_counts =
      get_recent_daily_counts now recent_days (map (λ j. j.created_at) a.base.jobs);
  recent_7d_notice_counts =
      get_recent_daily_counts now recent_days (map (λ n. sql.notice_created_at n.id) a.notices);
  recent_7d_crawl_error_counts =
      get_recent_daily_counts now recent_days (map (λ e. e.created_at) a.errors);
  recent_failed_or_partial_jobs = recent_failed_or_partial_jobs recent_failed_job_limit a.base;
  recent_crawl_errors = recent_crawl_errors recent_error_limit a;
}

unfoldable pub get_overview :
    Sql
    → (now : Time) (recent_days recent_failed_job_limit recent_error_limit : ℕ) → Archive
    → Result (StatsOverview × Archive)
get_overview sql now recent_days recent_failed_job_limit recent_error_limit a = do
  (expired, db) ← reconcile_expired_jobs_in_session none now none a.base
  ok (
    overview_of sql now recent_days recent_failed_job_limit recent_error_limit
        (record a { base = db }),
    record a { base = db },
  )
