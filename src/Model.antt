-- ===== src/Model.antt =====
-- app/models: the rows of `source_site`, `crawl_job` and `crawl_error`, and the database that
-- holds them. Columns with a CHECK constraint on their text are enumerations. `updated_at`, which
-- the program never reads, is left out.
use tender_phase.Prelude.{ℕ, String, Bool, true, false, Option, List}
use tender_phase.Clock.{Time}
use tender_phase.Payloads.{Payload}

pub data JobStatus : Type 0 where
  pending running succeeded failed partial : JobStatus

pub data JobType : Type 0 where
  scheduled manual backfill manual_retry : JobType

pub record JobMetrics : Type 0 where
  pub pages_fetched : ℕ
  pub documents_saved : ℕ
  pub notices_upserted : ℕ
  pub deduplicated_count : ℕ
  pub error_count : ℕ
  pub list_items_seen : ℕ
  pub list_items_unique : ℕ
  pub list_items_source_duplicates_skipped : ℕ
  pub detail_pages_fetched : ℕ
  pub records_inserted : ℕ
  pub records_updated : ℕ
  pub source_duplicates_suppressed : ℕ

pub record CrawlJob : Type 0 where
  pub id : ℕ
  pub source_site_id : ℕ
  pub job_type : JobType
  pub status : JobStatus
  pub triggered_by : Option String
  pub retry_of_job_id : Option ℕ
  pub queued_at : Option Time
  pub picked_at : Option Time
  pub started_at : Option Time
  pub finished_at : Option Time
  pub heartbeat_at : Option Time
  pub timeout_at : Option Time
  pub lease_expires_at : Option Time
  pub metrics : JobMetrics
  pub job_params_json : Option Payload
  pub runtime_stats_json : Option Payload
  pub failure_reason : Option String
  pub message : Option String
  pub created_at : Time

pub record SourceSite : Type 0 where
  pub id : ℕ
  pub code : String
  pub name : String
  pub base_url : String
  pub official_url : String
  pub list_url : String
  pub description : Option String
  pub is_active : Bool
  pub supports_js_render : Bool
  pub crawl_interval_minutes : ℕ
  pub default_max_pages : ℕ
  pub schedule_enabled : Bool
  pub schedule_days : ℕ
  pub last_scheduled_run_at : Option Time
  pub next_scheduled_run_at : Option Time
  pub last_schedule_status : Option String

-- `CHECK (stage IN ('fetch', 'parse', 'persist'))`
pub data ErrorStage : Type 0 where
  fetch parse persist : ErrorStage

pub record CrawlError : Type 0 where
  pub id : ℕ
  pub source_site_id : ℕ
  pub crawl_job_id : Option ℕ
  pub raw_document_id : Option ℕ
  pub stage : ErrorStage
  pub url : Option String
  pub error_type : String
  pub error_message : String
  pub traceback : Option String
  pub retryable : Bool
  pub occurred_at : Time
  pub resolved : Bool
  pub created_at : Time

-- `next_source_id` and `next_job_id` are the sequences of a server database; SQLite has none, and
-- the program numbers its rows there itself.
pub record Database : Type 0 where
  pub is_sqlite : Bool
  pub sources : List SourceSite
  pub jobs : List CrawlJob
  pub next_source_id : ℕ
  pub next_job_id : ℕ

abbrev pub no_metrics : JobMetrics
no_metrics = record {
  pages_fetched = 0;
  documents_saved = 0;
  notices_upserted = 0;
  deduplicated_count = 0;
  error_count = 0;
  list_items_seen = 0;
  list_items_unique = 0;
  list_items_source_duplicates_skipped = 0;
  detail_pages_fetched = 0;
  records_inserted = 0;
  records_updated = 0;
  source_duplicates_suppressed = 0;
}

abbrev pub status_text : JobStatus → String
status_text pending = "pending"
status_text running = "running"
status_text succeeded = "succeeded"
status_text failed = "failed"
status_text partial = "partial"

abbrev pub job_type_text : JobType → String
job_type_text scheduled = "scheduled"
job_type_text manual = "manual"
job_type_text backfill = "backfill"
job_type_text manual_retry = "manual_retry"

-- `ACTIVE_CRAWL_JOB_STATUSES`, the condition of the index `uq_crawl_job_source_active`
abbrev pub is_active : JobStatus → Bool
is_active pending = true
is_active running = true
is_active succeeded = false
is_active failed = false
is_active partial = false

-- `CRAWL_JOB_FINAL_STATUSES`
abbrev pub is_final : JobStatus → Bool
is_final pending = false
is_final running = false
is_final succeeded = true
is_final failed = true
is_final partial = true

abbrev pub is_pending : JobStatus → Bool
is_pending pending = true
is_pending running = false
is_pending succeeded = false
is_pending failed = false
is_pending partial = false

abbrev pub is_running : JobStatus → Bool
is_running pending = false
is_running running = true
is_running succeeded = false
is_running failed = false
is_running partial = false
