-- ===== src/Pages/Relations.antt =====
-- The notice version that a raw document belongs to, with its notice: the query that
-- app/repositories/crawl_error_repository.py and raw_document_repository.py share.
use tender_phase.Prelude.{
  ℕ, String, Bool, false, not, ◌&&◌, ◌||◌, Option, none, some, List, [], ◌∷◌, ◌==◌, leb, first,
  select,
}
use tender_phase.Prelude.Integers.{ℤ, less}
use tender_phase.Clock.{Time}
use tender_phase.Model.{SourceSite}
use tender_phase.Table
use tender_phase.Jobs.Creation.{source_id}
use tender_phase.Crawler.Rows.{NoticeType, TenderNotice, NoticeVersion, Archive, notice_id}

-- `notice_version JOIN tender_notice JOIN source_site`
pub record Relation : Type 0 where
  pub version : NoticeVersion
  pub notice : TenderNotice
  pub source_code : String

pub record NoticeVersionSummary : Type 0 where
  pub id : ℕ
  pub notice_id : ℕ
  pub version_no : ℤ
  pub is_current : Bool
  pub title : String
  pub notice_type : NoticeType

pub record NoticeSummary : Type 0 where
  pub id : ℕ
  pub source_code : String
  pub title : String
  pub notice_type : NoticeType
  pub published_at : Option Time
  pub current_version_id : Option ℕ

abbrev pub with_code :
    NoticeVersion → TenderNotice → Option SourceSite → List Relation → List Relation
with_code v n none rest = rest
with_code v n (some s) rest = record { version = v; notice = n; source_code = s.code } ∷ rest

abbrev pub with_notice :
    List SourceSite → NoticeVersion → Option TenderNotice → List Relation → List Relation
with_notice sources v none rest = rest
with_notice sources v (some n) rest =
    with_code v n (Table.get source_id n.source_site_id sources) rest

unfoldable pub relations : List SourceSite → List TenderNotice → List NoticeVersion → List Relation
relations sources notices [] = []
relations sources notices (v ∷ vs) =
    with_notice sources v (Table.get notice_id v.notice_id notices) (relations sources notices vs)

abbrev pub is_of_document : ℕ → Relation → Bool
is_of_document k r = elim r.version.raw_document_id [ none ↦ false | some d ↦ d == k ]

-- `ORDER BY is_current DESC, version_no DESC, id DESC`
abbrev pub by_number : NoticeVersion → NoticeVersion → Bool
by_number a b =
    less b.version_no a.version_no || (not (less a.version_no b.version_no) && leb b.id a.id)

abbrev pub relation_before : Relation → Relation → Bool
relation_before a b =
    (a.version.is_current && not b.version.is_current)
    || (not (b.version.is_current && not a.version.is_current) && by_number a.version b.version)

unfoldable pub related : ℕ → Archive → Option Relation
related k a = first (
    Table.order_by relation_before
      (select (is_of_document k) (relations a.base.sources a.notices a.versions)))

abbrev pub version_summary : Relation → NoticeVersionSummary
version_summary r = record {
  id = r.version.id;
  notice_id = r.version.notice_id;
  version_no = r.version.version_no;
  is_current = r.version.is_current;
  title = r.version.title;
  notice_type = r.version.notice_type;
}

abbrev pub notice_summary : Relation → NoticeSummary
notice_summary r = record {
  id = r.notice.id;
  source_code = r.source_code;
  title = r.notice.title;
  notice_type = r.notice.notice_type;
  published_at = r.notice.published_at;
  current_version_id = r.notice.current_version_id;
}
