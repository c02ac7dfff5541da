-- ===== src/Jobs/Creation.antt =====
-- `create_job_in_session` and `_ensure_source_site`: a new job, and the source that it belongs to.
use tender_phase.Prelude.Search.{contains}
use tender_phase.Prelude.{
  ℕ, suc, ◌+◌, String, Bool, true, false, not, ◌&&◌, ◌||◌, Option, none, some, List, str_eq, ltb,
  leb, ◌==◌, if◌then◌else◌, or_option, or_else, select, first, count, is_some,
}
use tender_phase.Prelude.Text.{as_str}
use tender_phase.Clock.{Time}
use tender_phase.Payloads.{Payload}
use tender_phase.Adapters.{normalize_source_code}
use tender_phase.Model.{pending, JobType, CrawlJob, SourceSite, Database, is_active, no_metrics}
use tender_phase.Table
use tender_phase.Session.{
  source_active, retry_of_job_id, source_code_required, retry_of_job_not_found, integrity, Result,
  ok, err, raise_if, ◌>>=◌, ◌>>◌,
}
use tender_phase.Jobs.Rules.{normalize_job_type}
use tender_phase.Jobs.Lifecycle.{get_job}

abbrev pub has_code : String → SourceSite → Bool
has_code c s = str_eq s.code c

-- `SELECT … WHERE code = c`
unfoldable pub source_by_code : String → List SourceSite → Option SourceSite
source_by_code c xs = first (select (has_code c) xs)

abbrev pub lower_id : SourceSite → SourceSite → Bool
lower_id a b = leb a.id b.id

-- `ORDER BY id LIMIT 1`
abbrev pub lowest : (SourceSite → Bool) → List SourceSite → Option SourceSite
lowest test xs = first (Table.order_by lower_id (select test xs))

-- The rows in which older databases keep the deal platform.
unfoldable pub legacy_deal_source : List SourceSite → Option SourceSite
legacy_deal_source xs =
    or_option (lowest (λ s. str_eq s.code "2" || str_eq s.code "ggzy_gov_cn") xs)
      (lowest (λ s. contains (λ c. c) s.name "全国公共资源交易平台") xs)

unfoldable pub find_source : String → String → List SourceSite → Option SourceSite
find_source raw_code code xs = or_option (source_by_code code xs) (
    or_option (if not (str_eq raw_code code) then source_by_code raw_code xs else none)
      (if str_eq code "ggzy_gov_cn_deal" then legacy_deal_source xs else none))

abbrev pub source_id : SourceSite → ℕ
source_id s = s.id

abbrev pub job_id : CrawlJob → ℕ
job_id j = j.id

-- `_model_create_kwargs`: SQLite gets an explicit id, a server database draws it from a sequence.
unfoldable pub new_source_id : Database → ℕ
new_source_id db = if db.is_sqlite then Table.max_id source_id db.sources + 1 else db.next_source_id

unfoldable pub new_job_id : Database → ℕ
new_job_id db = if db.is_sqlite then Table.max_id job_id db.jobs + 1 else db.next_job_id

abbrev pub new_source : ℕ → String → Option String → Option String → SourceSite
new_source id code source_name source_url =
    let url = or_else (as_str source_url) "https://example.com" in
    record {
      id = id;
      code = code;
      name = or_else (as_str source_name) code;
      base_url = url;
      official_url = url;
      list_url = url;
      description = some "auto-created by crawl job service";
      is_active = true;
      supports_js_render = false;
      crawl_interval_minutes = 60;
      default_max_pages = 50;
      schedule_enabled = false;
      schedule_days = 1;
      last_scheduled_run_at = none;
      next_scheduled_run_at = none;
      last_schedule_status = none;
    }

abbrev pub set_code : String → SourceSite → SourceSite
set_code c s = record s { code = c }

-- A source that was found under another code takes the new one, if no other source has it.
unfoldable pub adopt_code : String → Database → SourceSite → SourceSite × Database
adopt_code code db source =
    if not (str_eq source.code code) && not (is_some (source_by_code code db.sources))
    then (
      set_code code source,
      record db {
        sources = Table.update_where (λ s. s.id == source.id) (set_code code) db.sources;
      },
    )
    else (source, db)

unfoldable pub add_source :
    String → Option String → Option String → Database → SourceSite × Database
add_source code source_name source_url db =
    let source = new_source (new_source_id db) code source_name source_url in
    (
      source,
      record db {
        sources = Table.insert source db.sources;
        next_source_id = if db.is_sqlite then db.next_source_id else suc db.next_source_id;
      },
    )

unfoldable pub found_or_added :
    String → Option String → Option String → Database → Option SourceSite → SourceSite × Database
found_or_added code source_name source_url db (some source) = adopt_code code db source
found_or_added code source_name source_url db none = add_source code source_name source_url db

unfoldable pub ensure_source_site :
    (source_code : String) (source_name source_url : Option String)
    → Database
    → Result (SourceSite × Database)
ensure_source_site source_code source_name source_url db = elim (as_str (some source_code)) [
  | none ↦ err source_code_required
  | some raw_code ↦
      let code = normalize_source_code raw_code in
      ok (found_or_added code source_name source_url db (find_source raw_code code db.sources))
]

-- The keyword arguments of `create_job`.
pub record JobRequest : Type 0 where
  pub source_code : String
  pub source_name : Option String
  pub source_url : Option String
  pub job_type : String
  pub triggered_by : Option String
  pub retry_of_job_id : Option ℕ
  pub job_params_json : Option Payload
  pub runtime_stats_json : Option Payload
  pub failure_reason : Option String
  pub message : Option String

abbrev pub active_on : ℕ → CrawlJob → Bool
active_on source_site_id j = is_active j.status && j.source_site_id == source_site_id

abbrev pub is_retry_of : ℕ → CrawlJob → Bool
is_retry_of k j = elim j.retry_of_job_id [ none ↦ false | some i ↦ i == k ]

abbrev pub retries_same : Option ℕ → CrawlJob → Bool
retries_same none j = false
retries_same (some k) j = is_retry_of k j

-- The INSERT, with the unique indexes `uq_crawl_job_source_active` and
-- `uq_crawl_job_retry_of_job_id`.
unfoldable pub insert_job : CrawlJob → Database → Result (CrawlJob × Database)
insert_job job db =
    if is_active job.status && ltb 0 (count (active_on job.source_site_id) db.jobs)
    then err (integrity source_active)
    else if ltb 0 (count (retries_same job.retry_of_job_id) db.jobs)
    then err (integrity retry_of_job_id)
    else ok (
      job,
      record db {
        jobs = Table.insert job db.jobs;
        next_job_id = if db.is_sqlite then db.next_job_id else suc db.next_job_id;
      },
    )

abbrev pub new_job : ℕ → ℕ → JobType → Time → Time → JobRequest → CrawlJob
new_job id source_site_id job_type now created_at r = record {
  id = id;
  source_site_id = source_site_id;
  job_type = job_type;
  status = pending;
  triggered_by = as_str r.triggered_by;
  retry_of_job_id = r.retry_of_job_id;
  queued_at = some now;
  picked_at = none;
  started_at = none;
  finished_at = none;
  heartbeat_at = none;
  timeout_at = none;
  lease_expires_at = none;
  metrics = no_metrics;
  job_params_json = r.job_params_json;
  runtime_stats_json = r.runtime_stats_json;
  failure_reason = as_str r.failure_reason;
  message = as_str r.message;
  created_at = created_at;
}

abbrev pub check_original : Option ℕ → Database → Result (Unit {0})
check_original none db = ok tt
check_original (some k) db = raise_if (not (is_some (get_job k db))) (retry_of_job_not_found k)

-- `created_at` is the clock of the database, which fills the column of that name.
unfoldable pub create_job_in_session :
    JobRequest → (now created_at : Time) → Database → Result (CrawlJob × Database)
create_job_in_session r now created_at db = do
  job_type ← normalize_job_type r.job_type
  (source, db') ← ensure_source_site r.source_code r.source_name r.source_url db
  check_original r.retry_of_job_id db'
  insert_job (new_job (new_job_id db') source.id job_type now created_at r) db'
