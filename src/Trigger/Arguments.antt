-- ===== src/Trigger/Arguments.antt =====
-- The arguments of a crawl, and the command lines that they go into.
use Prim.Native.String.{◌++◌}
use tender_phase.Prelude.{
  ℕ, String, Option, none, some, List, [], ◌∷◌, ◌++◌ as append, if◌then◌else◌,
}
use tender_phase.Prelude.Integers.{ℤ, pos, less}
use tender_phase.Prelude.Text.{strip}
use tender_phase.Prelude.Decimal.{print_int, print_nat, parse_int}
use tender_phase.Prelude.Outcome.{returns, raises, ◌>>=◌}
use tender_phase.Payloads.{Payload, build_job_params_payload}
use tender_phase.Adapters.{lookup}
use tender_phase.Trigger.Checks.{
  Checked, max_pages_too_small, backfill_year_too_small, validate_database_url,
  validate_source_code, validate_job_type, validate_spider_name, validate_spider_args,
}

abbrev pub SpiderArgs : Type 0
SpiderArgs = List (String × String)

-- `if value is not None: ... value < least: raise ...`, and the entry that it adds
abbrev pub bounded_arg : String → ℕ → Checked SpiderArgs → Option ℤ → Checked SpiderArgs
bounded_arg key least too_small none = returns []
bounded_arg key least too_small (some n) =
    if less n (pos least) then too_small else returns ((key, print_int n) ∷ [])

unfoldable pub build_spider_args : Option ℤ → Option ℤ → String → Checked SpiderArgs
build_spider_args max_pages backfill_year job_type = do
  pages ← bounded_arg "max_pages" 1 (raises max_pages_too_small) max_pages
  year ← bounded_arg "backfill_year" 2000 (raises backfill_year_too_small) backfill_year
  returns (append pages (append year (("job_type", job_type) ∷ [])))

-- `_as_int_or_none`
abbrev pub as_int_or_none : Option String → Option ℤ
as_int_or_none none = none
as_int_or_none (some s) = parse_int (strip s)

unfoldable pub spider_int : SpiderArgs → String → Option ℤ
spider_int args key = as_int_or_none (lookup key args)

abbrev pub id_number : Option ℕ → Option ℤ
id_number none = none
id_number (some k) = some (pos k)

-- `_build_job_params_json`
unfoldable pub build_job_params_json :
    (source_code job_type : String) (triggered_by : Option String) (spider_args : SpiderArgs)
    (retry_of_job_id : Option ℕ) (spider_name : Option String)
    → Payload
build_job_params_json source_code job_type triggered_by spider_args retry_of_job_id spider_name =
    build_job_params_payload (record {
      source_code = source_code;
      job_type = job_type;
      triggered_by = triggered_by;
      max_pages = spider_int spider_args "max_pages";
      backfill_year = spider_int spider_args "backfill_year";
      retry_of_job_id = id_number retry_of_job_id;
      spider_name = spider_name;
    })

abbrev pub spider_options : SpiderArgs → List String
spider_options [] = []
spider_options ((key, value) ∷ args) = "-a" ∷ (key ++ ("=" ++ value)) ∷ spider_options args

-- The command that a worker runs. `python` is the interpreter that the program finds.
unfoldable pub build_spider_command :
    (python database_url spider : String) (crawl_job_id : ℕ) (spider_args : SpiderArgs)
    → Checked (List String)
build_spider_command python database_url spider crawl_job_id spider_args = do
  name ← validate_spider_name spider
  url ← validate_database_url database_url
  checked ← validate_spider_args spider_args
  returns (
      append
        (python
          ∷ "-m"
          ∷ "scrapy"
          ∷ "crawl"
          ∷ spider
          ∷ "-a"
          ∷ ("crawl_job_id=" ++ print_nat crawl_job_id)
          ∷ "-s"
          ∷ "CRAWLER_WRITER_BACKEND=sqlalchemy"
          ∷ "-s"
          ∷ ("CRAWLER_DATABASE_URL=" ++ database_url)
          ∷ [])
        (spider_options spider_args))

-- `CrawlJobDispatchRequest`
pub record DispatchRequest : Type 0 where
  pub source_code : String
  pub crawl_job_id : ℕ
  pub job_type : String
  pub max_pages : Option ℤ
  pub backfill_year : Option ℤ
  pub triggered_by : Option String

abbrev pub check_least : ℕ → Checked (List String) → String → Option ℤ → Checked (List String)
check_least least too_small option none = returns []
check_least least too_small option (some n) =
    if less n (pos least) then too_small else returns (option ∷ print_int n ∷ [])

-- The command that a dispatcher starts.
unfoldable pub build_worker_command :
    (python database_url : String) → DispatchRequest → Checked (List String)
build_worker_command python database_url r = do
  source_code ← validate_source_code r.source_code
  job_type ← validate_job_type r.job_type
  url ← validate_database_url database_url
  pages ← check_least 1 (raises max_pages_too_small) "--max-pages" r.max_pages
  year ← check_least 2000 (raises backfill_year_too_small) "--backfill-year" r.backfill_year
  returns (
      append
        (python
          ∷ "-m"
          ∷ "app.run_crawl_job"
          ∷ "--database-url"
          ∷ database_url
          ∷ "--source-code"
          ∷ r.source_code
          ∷ "--crawl-job-id"
          ∷ print_nat r.crawl_job_id
          ∷ "--job-type"
          ∷ r.job_type
          ∷ [])
        (append pages year))
