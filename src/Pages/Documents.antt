-- ===== src/Pages/Documents.antt =====
-- app/repositories/raw_document_repository.py
use tender_phase.Prelude.{
  ℕ, String, Bool, true, false, ◌&&◌, ◌||◌, Option, none, some, List, str_eq, ◌==◌, leb, ltb, first,
  select, length, map,
}
use mathlib.Core.Option
use tender_phase.Prelude.Integers.{ℤ, pos, negsuc}
use tender_phase.Clock.{Time}
use tender_phase.Crawler.Rows.{RawDocument, Archive}
use tender_phase.Pages.Lists.{Sourced, joined, asks, page}
use tender_phase.Pages.Relations.{
  NoticeVersionSummary, NoticeSummary, related, version_summary, notice_summary,
}

pub record RawDocumentQueryFilters : Type 0 where
  pub source_code : Option String
  pub document_type : Option String
  pub crawl_job_id : Option ℤ
  pub content_hash : Option String

pub record RawDocumentListItem : Type 0 where
  pub id : ℕ
  pub source_code : String
  pub crawl_job_id : Option ℤ
  pub url : String
  pub normalized_url : String
  pub document_type : String
  pub fetched_at : Time
  pub storage_uri : String
  pub mime_type : Option String
  pub title : Option String
  pub content_hash : Option String

pub record RawDocumentListResult : Type 0 where
  pub items : List RawDocumentListItem
  pub total : ℕ
  pub limit : ℕ
  pub offset : ℕ

-- The columns are those of an item of the list.
pub record RawDocumentDetail : Type 0 where
  pub document : RawDocumentListItem
  pub notice_version : Option NoticeVersionSummary
  pub tender_notice : Option NoticeSummary

abbrev pub same_number : ℤ → ℤ → Bool
same_number (pos m) (pos n) = m == n
same_number (negsuc m) (negsuc n) = m == n
same_number (pos m) (negsuc n) = false
same_number (negsuc m) (pos n) = false

abbrev pub asks_job : Option ℤ → Option ℤ → Bool
asks_job none column = true
asks_job (some k) none = false
asks_job (some k) (some n) = same_number n k

-- A condition on a column that may be NULL.
abbrev pub asks_hash : Option String → Option String → Bool
asks_hash none column = true
asks_hash (some s) none = str_eq s ""
asks_hash (some s) (some t) = str_eq s "" || str_eq t s

abbrev pub document_source : RawDocument → ℕ
document_source d = d.source_site_id

abbrev pub document_fits : RawDocumentQueryFilters → Sourced RawDocument → Bool
document_fits f r =
    asks f.source_code r.source_code
    && asks f.document_type r.row.document_type
    && asks_job f.crawl_job_id r.row.crawl_job_id
    && asks_hash f.content_hash r.row.content_hash

abbrev pub document_rows : Archive → List (Sourced RawDocument)
document_rows a = joined document_source a.base.sources a.raw_documents

-- Every raw document has a `fetched_at`.
abbrev pub fetched_later : Sourced RawDocument → Sourced RawDocument → Bool
fetched_later a b =
    ltb b.row.fetched_at a.row.fetched_at
    || (a.row.fetched_at == b.row.fetched_at && leb b.row.id a.row.id)

abbrev pub to_document_item : Sourced RawDocument → RawDocumentListItem
to_document_item r = record {
  id = r.row.id;
  source_code = r.source_code;
  crawl_job_id = r.row.crawl_job_id;
  url = r.row.url;
  normalized_url = r.row.normalized_url;
  document_type = r.row.document_type;
  fetched_at = r.row.fetched_at;
  storage_uri = r.row.storage_uri;
  mime_type = r.row.mime_type;
  title = r.row.title;
  content_hash = r.row.content_hash;
}

unfoldable pub list_raw_documents :
    RawDocumentQueryFilters → (limit offset : ℕ) → Archive → RawDocumentListResult
list_raw_documents f limit offset a =
    let rows = select (document_fits f) (document_rows a) in
    record {
      items = map to_document_item (page fetched_later limit offset rows);
      total = length rows;
      limit = limit;
      offset = offset;
    }

abbrev pub document_detail : Archive → Sourced RawDocument → RawDocumentDetail
document_detail a r = record {
  document = to_document_item r;
  notice_version = Option.map version_summary (related r.row.id a);
  tender_notice = Option.map notice_summary (related r.row.id a);
}

unfoldable pub get_raw_document_detail : ℕ → Archive → Option RawDocumentDetail
get_raw_document_detail k a =
    Option.map (document_detail a) (first (select (λ r. r.row.id == k) (document_rows a)))
