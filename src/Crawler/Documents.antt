-- ===== src/Crawler/Documents.antt =====
-- `SqlAlchemyRawDocumentWriter` and `SqlAlchemyErrorWriter`.
use tender_phase.Prelude.{
  ℕ, String, Bool, true, false, not, ◌&&◌, ◌||◌, Option, none, some, str_eq, ◌==◌, if◌then◌else◌,
  or_else, select, first, is_some,
}
use tender_phase.Prelude.Integers.{ℤ, pos}
use tender_phase.Prelude.Outcome.{returns, raises}
use tender_phase.Clock.{Time}
use tender_phase.Payloads.{Payload, JsonValue}
use tender_phase.Payloads
use tender_phase.Model.{ErrorStage, CrawlError, fetch, parse, persist}
use tender_phase.Table
use tender_phase.Table.Fresh.{next_id}
use tender_phase.Jobs.Stats.{MetricDeltas}
use tender_phase.Crawler.Python.{Python}
use tender_phase.Crawler.Items.{
  Item, as_text, value_of, text_of, int_of, non_negative_int, as_bool, as_datetime, lower_ascii,
  codes_eq,
}
use tender_phase.Crawler.Rows.{
  RawDocument, Archive, WriterContext, Written, unknown_document_type, is_text, raw_document_id,
  error_id, drawn,
}
use tender_phase.Crawler.Keys.{Keys}
use tender_phase.Crawler.Sources.{in_session, no_deltas, job_number, add_stats, one_if, committed}

unfoldable pub document_at : ℕ → String → Archive → Option RawDocument
document_at source_id url_hash a =
    first
      (select (λ d. d.source_site_id == source_id && str_eq d.url_hash url_hash) a.raw_documents)

abbrev pub document_with : ℕ → Option String → Archive → Option RawDocument
document_with source_id none a = none
document_with source_id (some content_hash) a = first (
    select (λ d. d.source_site_id == source_id && is_text d.content_hash content_hash)
      a.raw_documents)

-- The first document of that content is another one.
abbrev pub is_other : Option RawDocument → Option RawDocument → Bool
is_other none existing = false
is_other (some d) none = true
is_other (some d) (some e) = not (d.id == e.id)

abbrev pub known_document_type : String → Bool
known_document_type t = str_eq t "html" || str_eq t "pdf" || str_eq t "json" || str_eq t "other"

abbrev pub meta_value : String → Option Payload → Option JsonValue
meta_value key none = none
meta_value key (some p) = Payloads.get key p

-- `(_as_str(extra_meta.get("role")) or "").lower() == role`
abbrev pub has_role : String → Option Payload → Bool
has_role role meta = codes_eq (lower_ascii (or_else (as_text (meta_value "role" meta)) "")) role

abbrev pub meta_count : Option Payload → String → ℤ
meta_count meta key = if has_role "list" meta then non_negative_int (meta_value key meta) else pos 0

abbrev pub document_deltas : Option Payload → Bool → Bool → MetricDeltas
document_deltas meta existed duplicate = record no_deltas {
  pages_fetched = pos 1;
  documents_saved = pos 1;
  deduplicated_count = one_if (existed || duplicate);
  list_items_seen = meta_count meta "page_item_count";
  list_items_unique = meta_count meta "new_unique_item_count";
  list_items_source_duplicates_skipped = meta_count meta "page_source_duplicates_skipped";
  detail_pages_fetched = one_if (has_role "detail" meta);
  records_inserted = one_if (not existed);
  records_updated = one_if existed;
}

module _ (python : Python) (keys : Keys) where
  abbrev pub document_row : Item → String → Time → ℕ → ℕ → (existed duplicate : Bool) → RawDocument
  document_row i url_hash now id source_id existed duplicate = record {
    id = id;
    source_site_id = source_id;
    crawl_job_id = int_of "crawl_job_id" i;
    url = or_else (text_of "url" i) "";
    normalized_url = or_else (text_of "normalized_url" i) (or_else (text_of "url" i) "");
    url_hash = url_hash;
    content_hash = text_of "content_hash" i;
    source_duplicate_key = text_of "source_duplicate_key" i;
    source_list_item_fingerprint = text_of "source_list_item_fingerprint" i;
    document_type = or_else (text_of "document_type" i) "html";
    http_status = int_of "http_status" i;
    mime_type = text_of "mime_type" i;
    charset = text_of "charset" i;
    title = text_of "title" i;
    fetched_at = or_else (as_datetime python (value_of "fetched_at" i)) now;
    storage_uri = or_else (text_of "storage_uri" i) "";
    content_length = int_of "content_length" i;
    is_duplicate_url = existed;
    is_duplicate_content = duplicate;
    extra_meta = i.extra_meta;
  }

  abbrev pub store_document :
      Item → String → Time → ℕ → Bool → Option RawDocument → Archive → Archive
  store_document i url_hash now source_id duplicate none a =
      let id = next_id raw_document_id a.base.is_sqlite a.next.raw_documents a.raw_documents in
      record a {
        raw_documents =
            Table.insert (document_row i url_hash now id source_id false duplicate) a.raw_documents;
        next = record a.next { raw_documents = drawn a.base.is_sqlite a.next.raw_documents };
      }
  store_document i url_hash now source_id duplicate (some existing) a = record a {
    raw_documents =
        Table.update_where (Table.has_id raw_document_id existing.id)
          (λ _. document_row i url_hash now existing.id source_id true duplicate) a.raw_documents;
  }

  abbrev pub write_document_at :
      Item → Time → ℕ → Archive → Option String → Written (Option Archive)
  write_document_at i now source_id a none = returns none
  write_document_at i now source_id a (some url_hash) =
      let existing = document_at source_id url_hash a in
      let duplicate = is_other (document_with source_id (text_of "content_hash" i) a) existing in
      if known_document_type (or_else (text_of "document_type" i) "html")
      then committed (
          add_stats (int_of "crawl_job_id" i)
            (document_deltas i.extra_meta (is_some existing) duplicate)
            (store_document i url_hash now source_id duplicate existing a))
      else raises (unknown_document_type (or_else (text_of "document_type" i) "html"))

  unfoldable pub write_raw_document :
      Time → Item → WriterContext → Written (Unit {0}) × WriterContext
  write_raw_document now raw c =
      let i = keys.normalize_raw_document_item raw in
      in_session python i
        (λ source_id a. write_document_at i now source_id a (text_of "url_hash" i)) c

  -- `_normalize_error_stage`
  abbrev pub normalize_error_stage : Option String → ErrorStage
  normalize_error_stage none = parse
  normalize_error_stage (some t) =
      if str_eq t "fetch" then fetch else if str_eq t "persist" then persist else parse

  abbrev pub error_row : Item → (now created_at : Time) → ℕ → ℕ → CrawlError
  error_row i now created_at id source_id = record {
    id = id;
    source_site_id = source_id;
    crawl_job_id = job_number (int_of "crawl_job_id" i);
    raw_document_id = none;
    stage = normalize_error_stage (text_of "stage" i);
    url = text_of "url" i;
    error_type = or_else (text_of "error_type" i) "UnknownError";
    error_message = or_else (text_of "error_message" i) "";
    traceback = text_of "traceback" i;
    retryable = as_bool (value_of "retryable" i) false;
    occurred_at = or_else (as_datetime python (value_of "occurred_at" i)) now;
    resolved = false;
    created_at = created_at;
  }

  -- `created_at` is the clock of the database.
  unfoldable pub write_error :
      (now created_at : Time) → Item → WriterContext → Written (Unit {0}) × WriterContext
  write_error now created_at i c =
      in_session python i
        (λ source_id a.
          let id = next_id error_id a.base.is_sqlite a.next.errors a.errors in
          committed (
            add_stats (int_of "crawl_job_id" i) (record no_deltas { error_count = pos 1 })
              (record a {
                errors = Table.insert (error_row i now created_at id source_id) a.errors;
                next = record a.next { errors = drawn a.base.is_sqlite a.next.errors };
              })))
        c
