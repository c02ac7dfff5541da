-- ===== src/Pages/NoticeDetail.antt =====
-- app/repositories/notice_repository.py: the page of one notice.
use tender_phase.Prelude.{
  ℕ, String, Bool, not, ◌&&◌, Option, none, some, List, ◌==◌, leb, first, select, map, or_option,
}
use tender_phase.Prelude.Integers.{ℤ}
use tender_phase.Model.{SourceSite}
use tender_phase.Table
use tender_phase.Jobs.Creation.{source_id}
use tender_phase.Crawler.Rows.{
  AttachmentType, TenderNotice, NoticeVersion, TenderAttachment, Archive, notice_id,
}
use tender_phase.Pages.Errors.{RawDocumentSummary, raw_document_summary}
use tender_phase.Pages.Relations.{by_number}

pub record SourceSiteRecord : Type 0 where
  pub id : ℕ
  pub code : String
  pub name : String
  pub base_url : String
  pub is_active : Bool
  pub supports_js_render : Bool
  pub crawl_interval_minutes : ℕ

pub record TenderAttachmentRecord : Type 0 where
  pub id : ℕ
  pub notice_version_id : Option ℕ
  pub file_name : String
  pub file_url : String
  pub attachment_type : AttachmentType
  pub mime_type : Option String
  pub file_size_bytes : Option ℤ
  pub storage_uri : Option String

-- `NoticeVersionRecord`: the columns of the version, with its raw document.
pub record NoticeVersionRecord : Type 0 where
  pub version : NoticeVersion
  pub raw_document : Option RawDocumentSummary

-- The columns of the notice stand in `notice`.
pub record NoticeDetail : Type 0 where
  pub notice : TenderNotice
  pub source : SourceSiteRecord
  pub current_version : Option NoticeVersionRecord
  pub versions : List NoticeVersionRecord
  pub attachments : List TenderAttachmentRecord

abbrev pub to_version : Archive → NoticeVersion → NoticeVersionRecord
to_version a v = record { version = v; raw_document = raw_document_summary v.raw_document_id a }

unfoldable pub get_versions : ℕ → Archive → List NoticeVersionRecord
get_versions k a =
    map (to_version a) (Table.order_by by_number (select (λ v. v.notice_id == k) a.versions))

abbrev pub version_at_id : Option ℕ → List NoticeVersionRecord → Option NoticeVersionRecord
version_at_id none vs = none
version_at_id (some k) vs = first (select (λ r. r.version.id == k) vs)

-- `_resolve_current_version`: the one that the notice names, or one that is current, or the first.
unfoldable pub resolve_current_version :
    TenderNotice → List NoticeVersionRecord → Option NoticeVersionRecord
resolve_current_version n vs =
    or_option (version_at_id n.current_version_id vs)
      (or_option (first (select (λ r. r.version.is_current) vs)) (first vs))

abbrev pub attachment_before : TenderAttachment → TenderAttachment → Bool
attachment_before a b = leb a.id b.id

abbrev pub to_attachment : TenderAttachment → TenderAttachmentRecord
to_attachment t = record {
  id = t.id;
  notice_version_id = t.notice_version_id;
  file_name = t.file_name;
  file_url = t.file_url;
  attachment_type = t.attachment_type;
  mime_type = t.mime_type;
  file_size_bytes = t.file_size_bytes;
  storage_uri = t.storage_uri;
}

unfoldable pub get_attachments : ℕ → Archive → List TenderAttachmentRecord
get_attachments k a = map to_attachment (
    Table.order_by attachment_before
      (select (λ t. t.notice_id == k && not t.is_deleted) a.attachments))

abbrev pub to_source : SourceSite → SourceSiteRecord
to_source s = record {
  id = s.id;
  code = s.code;
  name = s.name;
  base_url = s.base_url;
  is_active = s.is_active;
  supports_js_render = s.supports_js_render;
  crawl_interval_minutes = s.crawl_interval_minutes;
}

abbrev pub notice_detail_at : Archive → TenderNotice → Option SourceSite → Option NoticeDetail
notice_detail_at a n none = none
notice_detail_at a n (some s) =
    let versions = get_versions n.id a in
    some (record {
      notice = n;
      source = to_source s;
      current_version = resolve_current_version n versions;
      versions = versions;
      attachments = get_attachments n.id a;
    })

abbrev pub notice_detail_of : Archive → Option TenderNotice → Option NoticeDetail
notice_detail_of a none = none
notice_detail_of a (some n) =
    notice_detail_at a n (Table.get source_id n.source_site_id a.base.sources)

unfoldable pub get_notice_detail : ℕ → Archive → Option NoticeDetail
get_notice_detail k a = notice_detail_of a (Table.get notice_id k a.notices)
