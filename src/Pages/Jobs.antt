-- ===== src/Pages/Jobs.antt =====
-- app/repositories/crawl_job_repository.py: the jobs with the codes of their sources, filtered, in
-- order and a window of them at a time.
use tender_phase.Prelude.{
  ℕ, ◌+◌, String, Bool, true, false, ◌&&◌, ◌||◌, Option, none, some, List, [], ◌∷◌, str_eq, leb,
  ◌==◌, first, select, count, length, map,
}
use tender_phase.Clock.{Time, days}
use tender_phase.Model.{JobStatus, CrawlJob, CrawlError, Database, status_text, job_type_text}
use tender_phase.Table
use tender_phase.Jobs.Rules.{resolve_timeout_at}
use tender_phase.Jobs.Creation.{job_id, is_retry_of}
use tender_phase.Pages.Lists.{Sourced, joined, asks, page}
use tender_phase.Health.Summary.{later_job, higher_id}

pub data CrawlJobOrderBy : Type 0 where
  by_started_at by_id : CrawlJobOrderBy

pub record CrawlJobQueryFilters : Type 0 where
  pub source_code : Option String
  pub status : Option String
  pub job_type : Option String
  pub status_in : Option (List String)
  pub started_from : Option Time

abbrev pub JobRow : Type 0
JobRow = Sourced CrawlJob

-- `CrawlJobRecord`: the columns of the job, with its lease for a missing timeout, and what is known
-- of the job that it retries and of the job that retries it.
pub record CrawlJobRecord : Type 0 where
  pub job : CrawlJob
  pub source_code : String
  pub recent_crawl_error_count : Option ℕ
  pub retry_of_job_status : Option JobStatus
  pub retry_of_job_message : Option String
  pub retried_by_job_id : Option ℕ
  pub retried_by_status : Option JobStatus
  pub retried_by_finished_at : Option Time
  pub retried_by_message : Option String

pub record CrawlJobListResult : Type 0 where
  pub items : List CrawlJobRecord
  pub total : ℕ
  pub limit : ℕ
  pub offset : ℕ
  pub order_by : CrawlJobOrderBy

abbrev pub job_source : CrawlJob → ℕ
job_source j = j.source_site_id

abbrev pub is_one_of : List String → String → Bool
is_one_of [] t = false
is_one_of (s ∷ ss) t = str_eq t s || is_one_of ss t

abbrev pub asks_one_of : Option (List String) → String → Bool
asks_one_of none t = true
asks_one_of (some []) t = true
asks_one_of (some (s ∷ ss)) t = is_one_of (s ∷ ss) t

abbrev pub asks_from : Option Time → Option Time → Bool
asks_from none t = true
asks_from (some from) none = false
asks_from (some from) (some t) = leb from t

abbrev pub fits : CrawlJobQueryFilters → JobRow → Bool
fits f r =
    asks f.source_code r.source_code
    && asks f.status (status_text r.row.status)
    && asks_one_of f.status_in (status_text r.row.status)
    && asks f.job_type (job_type_text r.row.job_type)
    && asks_from f.started_from r.row.started_at

-- `_build_base_query`
unfoldable pub build_base_query : CrawlJobQueryFilters → Database → List JobRow
build_base_query f db = select (fits f) (joined job_source db.sources db.jobs)

-- Every job has a `created_at`, so that no job lacks a moment to be ordered by.
abbrev pub row_before : CrawlJobOrderBy → JobRow → JobRow → Bool
row_before by_started_at a b = later_job a.row b.row
row_before by_id a b = higher_id a.row b.row

abbrev pub to_record : JobRow → CrawlJobRecord
to_record r = record {
  job = record r.row { timeout_at = resolve_timeout_at r.row };
  source_code = r.source_code;
  recent_crawl_error_count = none;
  retry_of_job_status = none;
  retry_of_job_message = none;
  retried_by_job_id = none;
  retried_by_status = none;
  retried_by_finished_at = none;
  retried_by_message = none;
}

abbrev pub original_of : Option ℕ → List CrawlJob → Option CrawlJob
original_of none jobs = none
original_of (some k) jobs = Table.get job_id k jobs

abbrev pub retry_for : ℕ → List CrawlJob → Option CrawlJob
retry_for k jobs = first (Table.order_by higher_id (select (is_retry_of k) jobs))

abbrev pub with_original : Option CrawlJob → CrawlJobRecord → CrawlJobRecord
with_original none r = r
with_original (some o) r = record r {
  retry_of_job_status = some o.status;
  retry_of_job_message = o.message;
}

abbrev pub with_retry : Option CrawlJob → CrawlJobRecord → CrawlJobRecord
with_retry none r = r
with_retry (some j) r = record r {
  retried_by_job_id = some j.id;
  retried_by_status = some j.status;
  retried_by_finished_at = j.finished_at;
  retried_by_message = j.message;
}

-- `_attach_retry_info`, on one record: the records do not depend on each other.
unfoldable pub attach_retry_info : List CrawlJob → CrawlJobRecord → CrawlJobRecord
attach_retry_info jobs r =
    with_retry (retry_for r.job.id jobs) (with_original (original_of r.job.retry_of_job_id jobs) r)

abbrev pub shown : List CrawlJob → JobRow → CrawlJobRecord
shown jobs r = attach_retry_info jobs (to_record r)

unfoldable pub list_jobs :
    CrawlJobQueryFilters
    → (order : CrawlJobOrderBy) → (limit offset : ℕ) → Database
    → CrawlJobListResult
list_jobs f order limit offset db = record {
  items = map (shown db.jobs) (page (row_before order) limit offset (build_base_query f db));
  total = length (build_base_query f db);
  limit = limit;
  offset = offset;
  order_by = order;
}

abbrev pub error_of : Time → ℕ → ℕ → CrawlError → Bool
error_of now recent_window_days k e =
    (elim e.crawl_job_id [ none ↦ false | some j ↦ j == k ])
    && leb now (e.occurred_at + days recent_window_days)

abbrev pub detail_of :
    (now : Time) (recent_window_days : ℕ)
    → List CrawlError
    → List CrawlJob
    → JobRow
    → CrawlJobRecord
detail_of now recent_window_days errors jobs r = attach_retry_info jobs (record (to_record r) {
  recent_crawl_error_count = some (count (error_of now recent_window_days r.row.id) errors);
})

abbrev pub detail_of_first :
    (now : Time) (recent_window_days : ℕ)
    → List CrawlError
    → List CrawlJob
    → Option JobRow
    → Option CrawlJobRecord
detail_of_first now recent_window_days errors jobs none = none
detail_of_first now recent_window_days errors jobs (some r) =
    some (detail_of now recent_window_days errors jobs r)

unfoldable pub get_job_detail :
    (job_id : ℕ) (now : Time) (recent_window_days : ℕ)
    → List CrawlError
    → Database
    → Option CrawlJobRecord
get_job_detail k now recent_window_days errors db =
    detail_of_first now recent_window_days errors db.jobs
      (first (select (λ r. r.row.id == k) (joined job_source db.sources db.jobs)))
