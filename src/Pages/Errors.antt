-- ===== src/Pages/Errors.antt =====
-- app/repositories/crawl_error_repository.py
use tender_phase.Prelude.{
  ℕ, ◌+◌, String, Bool, ◌&&◌, ◌||◌, Option, none, some, List, [], ◌∷◌, ◌==◌, leb, ltb, first,
  select, length, map, take, if◌then◌else◌,
}
use mathlib.Core.Option
use tender_phase.Clock.{Time, days}
use tender_phase.Model.{ErrorStage, fetch, parse, persist, CrawlError, SourceSite}
use tender_phase.Table
use tender_phase.Crawler.Rows.{RawDocument, Archive, error_id, raw_document_id}
use tender_phase.Health.Summary.{later_error}
use tender_phase.Pages.Lists.{Sourced, joined, asks, asks_id, page}
use tender_phase.Pages.Relations.{
  NoticeVersionSummary, NoticeSummary, related, version_summary, notice_summary,
}

pub record CrawlErrorQueryFilters : Type 0 where
  pub source_code : Option String
  pub stage : Option String
  pub crawl_job_id : Option ℕ
  pub error_type : Option String

pub record CrawlErrorListItem : Type 0 where
  pub id : ℕ
  pub source_code : String
  pub crawl_job_id : Option ℕ
  pub stage : ErrorStage
  pub error_type : String
  pub message : String
  pub url : Option String
  pub created_at : Time

pub record CrawlErrorListResult : Type 0 where
  pub items : List CrawlErrorListItem
  pub total : ℕ
  pub limit : ℕ
  pub offset : ℕ

pub record CrawlErrorSourceSummary : Type 0 where
  pub source_code : String
  pub recent_error_count : ℕ
  pub latest_error_id : ℕ
  pub latest_error_message : String
  pub latest_error_created_at : Time

pub record RawDocumentSummary : Type 0 where
  pub id : ℕ
  pub document_type : String
  pub fetched_at : Time
  pub storage_uri : String

-- The columns that the list shows are in `item`; `detail` is the message again.
pub record CrawlErrorDetail : Type 0 where
  pub item : CrawlErrorListItem
  pub raw_document_id : Option ℕ
  pub detail : String
  pub traceback : Option String
  pub raw_document : Option RawDocumentSummary
  pub notice : Option NoticeSummary
  pub notice_version : Option NoticeVersionSummary

abbrev pub stage_text : ErrorStage → String
stage_text fetch = "fetch"
stage_text parse = "parse"
stage_text persist = "persist"

abbrev pub error_source : CrawlError → ℕ
error_source e = e.source_site_id

abbrev pub error_fits : CrawlErrorQueryFilters → Sourced CrawlError → Bool
error_fits f r =
    asks f.source_code r.source_code
    && asks f.stage (stage_text r.row.stage)
    && asks_id f.crawl_job_id r.row.crawl_job_id
    && asks f.error_type r.row.error_type

abbrev pub error_rows : Archive → List (Sourced CrawlError)
error_rows a = joined error_source a.base.sources a.errors

abbrev pub error_before : Sourced CrawlError → Sourced CrawlError → Bool
error_before a b = later_error a.row b.row

abbrev pub to_error_item : Sourced CrawlError → CrawlErrorListItem
to_error_item r = record {
  id = r.row.id;
  source_code = r.source_code;
  crawl_job_id = r.row.crawl_job_id;
  stage = r.row.stage;
  error_type = r.row.error_type;
  message = r.row.error_message;
  url = r.row.url;
  created_at = r.row.created_at;
}

unfoldable pub list_errors :
    CrawlErrorQueryFilters → (limit offset : ℕ) → Archive → CrawlErrorListResult
list_errors f limit offset a =
    let rows = select (error_fits f) (error_rows a) in
    record {
      items = map to_error_item (page error_before limit offset rows);
      total = length rows;
      limit = limit;
      offset = offset;
    }

abbrev pub document_summary : RawDocument → RawDocumentSummary
document_summary d = record {
  id = d.id;
  document_type = d.document_type;
  fetched_at = d.fetched_at;
  storage_uri = d.storage_uri;
}

abbrev pub raw_document_summary : Option ℕ → Archive → Option RawDocumentSummary
raw_document_summary none a = none
raw_document_summary (some k) a =
    Option.map document_summary (Table.get raw_document_id k a.raw_documents)

abbrev pub notice_of_document : Option ℕ → Archive → Option NoticeSummary
notice_of_document none a = none
notice_of_document (some k) a = Option.map notice_summary (related k a)

abbrev pub version_of_document : Option ℕ → Archive → Option NoticeVersionSummary
version_of_document none a = none
version_of_document (some k) a = Option.map version_summary (related k a)

abbrev pub error_detail : Archive → Sourced CrawlError → CrawlErrorDetail
error_detail a r = record {
  item = to_error_item r;
  raw_document_id = r.row.raw_document_id;
  detail = r.row.error_message;
  traceback = r.row.traceback;
  raw_document = raw_document_summary r.row.raw_document_id a;
  notice = notice_of_document r.row.raw_document_id a;
  notice_version = version_of_document r.row.raw_document_id a;
}

unfoldable pub get_error_detail : ℕ → Archive → Option CrawlErrorDetail
get_error_detail k a =
    Option.map (error_detail a) (first (select (λ r. r.row.id == k) (error_rows a)))

-- A group of `GROUP BY source_site_id`.
pub record ErrorGroup : Type 0 where
  pub source_code : String
  pub recent_error_count : ℕ
  pub latest_error_id : ℕ

abbrev pub row_id : Sourced CrawlError → ℕ
row_id r = r.row.id

abbrev pub of_site : ℕ → Sourced CrawlError → Bool
of_site k r = r.row.source_site_id == k

-- The groups of the sources that have a row.
unfoldable pub groups : List SourceSite → List (Sourced CrawlError) → List ErrorGroup
groups [] rows = []
groups (s ∷ ss) rows =
    let rest = groups ss rows in
    let own = select (of_site s.id) rows in
    if length own == 0
    then rest
    else record {
      source_code = s.code;
      recent_error_count = length own;
      latest_error_id = Table.max_id row_id own;
    }
      ∷ rest

-- `ORDER BY count DESC, max(id) DESC`
abbrev pub group_before : ErrorGroup → ErrorGroup → Bool
group_before a b =
    ltb b.recent_error_count a.recent_error_count
    || (a.recent_error_count == b.recent_error_count && leb b.latest_error_id a.latest_error_id)

abbrev pub with_latest :
    ErrorGroup → Option CrawlError → List CrawlErrorSourceSummary → List CrawlErrorSourceSummary
with_latest g none rest = rest
with_latest g (some e) rest =
    record {
      source_code = g.source_code;
      recent_error_count = g.recent_error_count;
      latest_error_id = g.latest_error_id;
      latest_error_message = e.error_message;
      latest_error_created_at = e.created_at;
    }
    ∷ rest

abbrev pub summaries : List CrawlError → List ErrorGroup → List CrawlErrorSourceSummary
summaries errors [] = []
summaries errors (g ∷ gs) =
    with_latest g (Table.get error_id g.latest_error_id errors) (summaries errors gs)

-- `created_at >= now - timedelta(days=recent_days)`
abbrev pub is_since : (now : Time) → (recent_days : ℕ) → Sourced CrawlError → Bool
is_since now recent_days r = leb now (r.row.created_at + days recent_days)

unfoldable pub list_recent_source_summaries :
    CrawlErrorQueryFilters
    → (now : Time) (recent_days limit : ℕ) → Archive
    → List CrawlErrorSourceSummary
list_recent_source_summaries f now recent_days limit a =
    let rows = select (λ r. is_since now recent_days r && error_fits f r) (error_rows a) in
    summaries a.errors (take limit (Table.order_by group_before (groups a.base.sources rows)))
