-- ===== src/Crawler/Rows.antt =====
-- app/models: the rows of `tender_notice`, `notice_version`, `raw_document` and
-- `tender_attachment`, and the state of the writers.
use tender_phase.Prelude.{
  ℕ, suc, String, Bool, false, Option, none, some, List, str_eq, if◌then◌else◌,
}
use tender_phase.Prelude.Integers.{ℤ}
use tender_phase.Prelude.Outcome.{Outcome}
use tender_phase.Clock.{Time}
use tender_phase.Payloads.{Payload}
use tender_phase.Model.{CrawlError, Database}
use tender_phase.Session.{Error}

-- `CHECK (notice_type IN ('announcement', 'change', 'result'))`
pub data NoticeType : Type 0 where
  announcement change result : NoticeType

-- `CHECK (attachment_type IN ('notice_file', 'bid_file', 'other'))`
pub data AttachmentType : Type 0 where
  notice_file bid_file other_file : AttachmentType

pub record TenderNotice : Type 0 where
  pub id : ℕ
  pub source_site_id : ℕ
  pub external_id : Option String
  pub project_code : Option String
  pub dedup_hash : Option String
  pub dedup_key : Option String
  pub source_duplicate_key : Option String
  pub title : String
  pub notice_type : NoticeType
  pub issuer : Option String
  pub region : Option String
  pub published_at : Option Time
  pub deadline_at : Option Time
  pub budget_amount : Option String
  pub budget_currency : String
  pub summary : Option String
  pub first_published_at : Option Time
  pub latest_published_at : Option Time
  pub current_version_id : Option ℕ

pub record NoticeVersion : Type 0 where
  pub id : ℕ
  pub notice_id : ℕ
  pub raw_document_id : Option ℕ
  pub version_no : ℤ
  pub is_current : Bool
  pub content_hash : String
  pub dedup_key : Option String
  pub source_duplicate_key : Option String
  pub title : String
  pub notice_type : NoticeType
  pub issuer : Option String
  pub region : Option String
  pub published_at : Option Time
  pub deadline_at : Option Time
  pub budget_amount : Option String
  pub budget_currency : String
  pub structured_data : Payload
  pub change_summary : Option String

pub record RawDocument : Type 0 where
  pub id : ℕ
  pub source_site_id : ℕ
  pub crawl_job_id : Option ℤ
  pub url : String
  pub normalized_url : String
  pub url_hash : String
  pub content_hash : Option String
  pub source_duplicate_key : Option String
  pub source_list_item_fingerprint : Option String
  pub document_type : String
  pub http_status : Option ℤ
  pub mime_type : Option String
  pub charset : Option String
  pub title : Option String
  pub fetched_at : Time
  pub storage_uri : String
  pub content_length : Option ℤ
  pub is_duplicate_url : Bool
  pub is_duplicate_content : Bool
  pub extra_meta : Option Payload

pub record TenderAttachment : Type 0 where
  pub id : ℕ
  pub source_site_id : ℕ
  pub notice_id : ℕ
  pub notice_version_id : Option ℕ
  pub raw_document_id : Option ℕ
  pub file_name : String
  pub attachment_type : AttachmentType
  pub file_url : String
  pub url_hash : String
  pub file_hash : Option String
  pub storage_uri : Option String
  pub mime_type : Option String
  pub file_ext : Option String
  pub file_size_bytes : Option ℤ
  pub published_at : Option Time
  pub downloaded_at : Option Time
  pub is_deleted : Bool

-- The sequences of a server database, one for each table.
pub record Sequences : Type 0 where
  pub notices : ℕ
  pub versions : ℕ
  pub raw_documents : ℕ
  pub attachments : ℕ
  pub errors : ℕ

-- The tables that the writers change, the ones of the job service among them.
pub record Archive : Type 0 where
  pub base : Database
  pub notices : List TenderNotice
  pub versions : List NoticeVersion
  pub raw_documents : List RawDocument
  pub attachments : List TenderAttachment
  pub errors : List CrawlError
  pub next : Sequences

-- `SqlAlchemyWriterContext`: the database, and the ids of the sources that have been looked up.
pub record WriterContext : Type 0 where
  pub archive : Archive
  pub source_cache : List (String × ℕ)

-- The unique constraints that a statement of the writers may violate, and what `record_stats`
-- raises.
pub data WriteError : Type 0 where
  notice_identity : WriteError
  version_identity : WriteError
  unknown_document_type : String → WriteError
  service : Error → WriteError

abbrev pub Written : Type 0 → Type 0
Written A = Outcome WriteError A

-- `column = text`, which no NULL satisfies
abbrev pub is_text : Option String → String → Bool
is_text none t = false
is_text (some s) t = str_eq s t

-- `column = value` where the value may be NULL
abbrev pub same_text : Option String → Option String → Bool
same_text a none = false
same_text a (some t) = is_text a t

abbrev pub notice_id : TenderNotice → ℕ
notice_id n = n.id

abbrev pub version_id : NoticeVersion → ℕ
version_id v = v.id

abbrev pub raw_document_id : RawDocument → ℕ
raw_document_id d = d.id

abbrev pub attachment_id : TenderAttachment → ℕ
attachment_id a = a.id

abbrev pub error_id : CrawlError → ℕ
error_id e = e.id

-- A sequence after an INSERT.
abbrev pub drawn : Bool → ℕ → ℕ
drawn numbered_here n = if numbered_here then n else suc n
