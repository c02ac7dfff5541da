-- ===== src/Pages/Notices.antt =====
-- app/repositories/notice_repository.py: duplicates, order and windows of the list of notices, and
-- the notices that share a key.
use tender_phase.Prelude.{
  ℕ, String, Bool, true, false, not, ◌&&◌, ◌||◌, Option, none, some, List, [], ◌∷◌, str_eq, ◌==◌,
  leb, ltb, first, select, count, length, map, if◌then◌else◌,
}
use mathlib.Core.Option
use tender_phase.Clock.{Time}
use tender_phase.Model.{SourceSite}
use tender_phase.Table
use tender_phase.Jobs.Creation.{source_id}
use tender_phase.Crawler.Rows.{
  TenderNotice, NoticeVersion, Archive, notice_id, version_id, raw_document_id,
}
use tender_phase.Pages.Lists.{page}
use tender_phase.Pages.NoticeRows.{
  Sql, NoticeQueryFilters, NoticeRow, build_base_rows_query, dedup_key_expr, dedup_key_for_notice,
}

-- `NoticeListItemRecord`
pub record NoticeListItem : Type 0 where
  pub row : NoticeRow
  pub duplicate_count : ℕ

pub record NoticeListResult : Type 0 where
  pub items : List NoticeListItem
  pub total : ℕ
  pub limit : ℕ
  pub offset : ℕ

pub record NoticeRelated : Type 0 where
  pub id : ℕ
  pub source_code : String
  pub source_name : String
  pub title : String
  pub published_at : Option Time
  pub detail_url : Option String

-- `column IS NULL, column DESC` and `column IS NULL, column ASC`, and what decides between equals
module _ {A : Type 0} (less : A → A → Bool) where
  abbrev pub descending : Option A → Option A → Bool → Bool
  descending none none tie = tie
  descending none (some b) tie = false
  descending (some a) none tie = true
  descending (some a) (some b) tie = less b a || (not (less a b) && tie)

  abbrev pub ascending : Option A → Option A → Bool → Bool
  ascending none none tie = tie
  ascending none (some b) tie = false
  ascending (some a) none tie = true
  ascending (some a) (some b) tie = less a b || (not (less b a) && tie)

abbrev pub newer_id : NoticeRow → NoticeRow → Bool
newer_id a b = leb b.id a.id

abbrev pub recent_first : NoticeRow → NoticeRow → Bool → Bool
recent_first a b tie =
    (a.is_recent_new && not b.is_recent_new)
    || (not (b.is_recent_new && not a.is_recent_new) && tie)

-- `rank_order`
abbrev pub rank_before : NoticeRow → NoticeRow → Bool
rank_before a b = recent_first a b (descending ltb a.published_at b.published_at (newer_id a b))

abbrev pub same_key : String → NoticeRow → Bool
same_key k r = str_eq r.dedup_key k

-- `row_number() OVER (PARTITION BY dedup_key ORDER BY …) = 1`
abbrev pub is_id_of : Option NoticeRow → NoticeRow → Bool
is_id_of none r = false
is_id_of (some b) r = r.id == b.id

abbrev pub is_first_of_key : List NoticeRow → NoticeRow → Bool
is_first_of_key rows r =
    is_id_of (first (Table.order_by rank_before (select (same_key r.dedup_key) rows))) r

abbrev pub with_duplicates : List NoticeRow → NoticeRow → NoticeListItem
with_duplicates rows r = record { row = r; duplicate_count = count (same_key r.dedup_key) rows }

abbrev pub alone : NoticeRow → NoticeListItem
alone r = record { row = r; duplicate_count = 1 }

-- `_build_list_query`
unfoldable pub build_list_query : (dedup : Bool) → List NoticeRow → List NoticeListItem
build_list_query true rows = map (with_duplicates rows) (select (is_first_of_key rows) rows)
build_list_query false rows = map alone rows

module _ (sql : Sql) where
  abbrev pub column_before :
      (sort_by : String) (ascends : Bool) → NoticeRow → NoticeRow → Bool → Bool
  column_before sort_by ascends a b tie =
      let by_time =
        λ (x y : Option Time). if ascends then ascending ltb x y tie else descending ltb x y tie in
      if str_eq sort_by "deadline_at"
      then by_time a.deadline_at b.deadline_at
      else if str_eq sort_by "budget_amount"
      then (if ascends
          then ascending sql.amount_less a.budget_amount b.budget_amount tie
          else descending sql.amount_less a.budget_amount b.budget_amount tie)
      else if str_eq sort_by "source_name"
      then (if ascends
          then ascending sql.text_less (some a.source_name) (some b.source_name) tie
          else descending sql.text_less (some a.source_name) (some b.source_name) tie)
      else by_time a.published_at b.published_at

  -- What is not a field of the sort is `published_at`.
  abbrev pub sorts_by_time : String → Bool
  sorts_by_time sort_by = not (
      str_eq sort_by "deadline_at"
      || str_eq sort_by "budget_amount"
      || str_eq sort_by "source_name")

  -- `_build_order_by`
  unfoldable pub item_before :
      (sort_by sort_order : String) → NoticeListItem → NoticeListItem → Bool
  item_before sort_by sort_order a b =
      let ascends = str_eq sort_order "asc" in
      let by_column = column_before sort_by ascends a.row b.row (newer_id a.row b.row) in
      if not ascends && sorts_by_time sort_by then recent_first a.row b.row by_column else by_column

  unfoldable pub list_notices :
      (now : Time)
      → NoticeQueryFilters
      → (dedup : Bool) → (sort_by sort_order : String) → (limit offset : ℕ) → Archive
      → NoticeListResult
  list_notices now f dedup sort_by sort_order limit offset a =
      let items = build_list_query dedup (build_base_rows_query sql now f a) in
      record {
        items = page (item_before sort_by sort_order) limit offset items;
        total = length items;
        limit = limit;
        offset = offset;
      }

  unfoldable pub list_notices_for_export :
      (now : Time)
      → NoticeQueryFilters
      → (dedup : Bool) → (sort_by sort_order : String) → Archive
      → List NoticeListItem
  list_notices_for_export now f dedup sort_by sort_order a =
      Table.order_by (item_before sort_by sort_order)
        (build_list_query dedup (build_base_rows_query sql now f a))

-- The page of a notice's current version, over two outer joins.
abbrev pub version_at : Option ℕ → List NoticeVersion → Option NoticeVersion
version_at none vs = none
version_at (some k) vs = Table.get version_id k vs

abbrev pub url_of : Archive → Option NoticeVersion → Option String
url_of a none = none
url_of a (some v) = elim v.raw_document_id [
  | none ↦ none
  | some d ↦ Option.map (λ r. r.url) (Table.get raw_document_id d a.raw_documents)
]

abbrev pub related_row :
    Archive → TenderNotice → Option SourceSite → List NoticeRelated → List NoticeRelated
related_row a n none rest = rest
related_row a n (some s) rest =
    record {
      id = n.id;
      source_code = s.code;
      source_name = s.name;
      title = n.title;
      published_at = n.published_at;
      detail_url = url_of a (version_at n.current_version_id a.versions);
    }
    ∷ rest

abbrev pub related_rows : Archive → List TenderNotice → List NoticeRelated
related_rows a [] = []
related_rows a (n ∷ ns) =
    related_row a n (Table.get source_id n.source_site_id a.base.sources) (related_rows a ns)

abbrev pub related_before : NoticeRelated → NoticeRelated → Bool
related_before a b = descending ltb a.published_at b.published_at (leb b.id a.id)

abbrev pub related_to : Archive → Option TenderNotice → List NoticeRelated
related_to a none = []
related_to a (some n) =
    Table.order_by related_before
      (related_rows a (select (λ m. str_eq (dedup_key_expr m) (dedup_key_for_notice n)) a.notices))

unfoldable pub list_related_notices : ℕ → Archive → List NoticeRelated
list_related_notices k a = related_to a (Table.get notice_id k a.notices)
