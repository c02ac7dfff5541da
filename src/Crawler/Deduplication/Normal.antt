-- ===== src/Crawler/Deduplication/Normal.antt =====
-- `build_notice_identity` and the three methods that normalise an item.
use Prim.Native.String.{◌++◌}
use tender_phase.Prelude.{String, Option, none, some, if◌then◌else◌, or_option, or_else, is_some}
use tender_phase.Payloads.{JsonValue, null, text, Payload, put}
use tender_phase.Payloads
use tender_phase.Crawler.Python.{Python}
use tender_phase.Crawler.Items.{Item, or_value, as_text, value_of, text_of}
use tender_phase.Crawler.NoticeFields.{
  normalize_notice_type, type_text, external_id_of, dedup_hash_of,
}
use tender_phase.Crawler.Keys.{Keys}
use tender_phase.Crawler.Deduplication.Texts.{
  normalize_title, normalize_region, normalize_purchaser_or_publisher,
}
use tender_phase.Crawler.Deduplication.Dates.{normalize_published_date}
use tender_phase.Crawler.Deduplication.Budgets.{normalize_budget_bucket}
use tender_phase.Crawler.Deduplication.Urls.{normalize_detail_url}
use tender_phase.Crawler.Deduplication.Seeds.{
  KeyFields, build_persistence_dedup_key, build_source_duplicate_key,
}

-- `normalized[key] = value`
abbrev pub put_field : String → Option String → Item → Item
put_field key none i = record i { fields = put key null i.fields }
put_field key (some t) i = record i { fields = put key (text t) i.fields }

-- `NoticeIdentity`, as far as an item is given it
pub record NoticeIdentity : Type 0 where
  pub dedup_hash : Option String
  pub external_id : Option String
  pub normalized_detail_url : Option String
  pub normalized_title : Option String
  pub merge_strategy : String

abbrev pub place_of : Item → Option JsonValue
place_of i =
    or_value (value_of "detail_page_url" i) (or_value (value_of "source_url" i) (value_of "url" i))

abbrev pub id_of : Item → Option JsonValue
id_of i = or_value (value_of "external_id" i) (value_of "notice_external_id" i)

module _ (python : Python) where
  abbrev pub identified :
      String → Option String → Option String → Option String → Option String → NoticeIdentity
  identified source_code given (some external_id) url title = record {
    dedup_hash = some (python.sha256_hexdigest (source_code ++ "|external_id|" ++ external_id));
    external_id = some external_id;
    normalized_detail_url = url;
    normalized_title = title;
    merge_strategy = "external_id";
  }
  identified source_code given none (some url) title = record {
    dedup_hash = some (python.sha256_hexdigest (source_code ++ "|detail_url|" ++ url));
    external_id = none;
    normalized_detail_url = some url;
    normalized_title = title;
    merge_strategy = "detail_url";
  }
  identified source_code given none none (some title) = record {
    dedup_hash = some (python.sha256_hexdigest (source_code ++ "|title|" ++ title));
    external_id = none;
    normalized_detail_url = none;
    normalized_title = some title;
    merge_strategy = "title";
  }
  identified source_code given none none none = record {
    dedup_hash = given;
    external_id = none;
    normalized_detail_url = none;
    normalized_title = none;
    merge_strategy = if is_some given then "provided" else "fallback";
  }

  unfoldable pub build_notice_identity : Item → NoticeIdentity
  build_notice_identity i =
      identified (or_else (text_of "source_code" i) "unknown_source") (dedup_hash_of i)
        (external_id_of i) (normalize_detail_url python (place_of i))
        (normalize_title python (value_of "title" i))

  abbrev pub content_hash_of : (content_hash raw_body : Option JsonValue) → Option String
  content_hash_of content_hash raw_body =
      or_option (as_text content_hash)
        (elim (as_text raw_body) [ none ↦ none | some t ↦ some (python.sha256_hexdigest t) ])

  -- `ensure_content_hash`
  unfoldable pub ensure_content_hash : (content_hash raw_body : Option JsonValue) → Option String
  ensure_content_hash content_hash raw_body = content_hash_of content_hash raw_body

  abbrev pub key_fields : Item → (publisher : Option JsonValue) → KeyFields
  key_fields i publisher = record {
    title = value_of "title" i;
    published_at = value_of "published_at" i;
    purchaser = value_of "purchaser" i;
    publisher = publisher;
    budget_amount = value_of "budget_amount" i;
    region = value_of "region" i;
    detail_url = place_of i;
    detail_id = id_of i;
  }

  abbrev pub with_place : Option String → Item → Item
  with_place none i = i
  with_place (some url) i =
      if is_some (text_of "detail_page_url" i) then i else put_field "detail_page_url" (some url) i

  abbrev pub with_identity : NoticeIdentity → Item → Item
  with_identity identity i =
      let dedup_key = or_else (text_of "dedup_key" i) (
        build_persistence_dedup_key python
          (key_fields i (or_value (value_of "issuer" i) (value_of "publisher" i)))) in
      let dedup_hash = or_option (dedup_hash_of i) identity.dedup_hash in
      let i1 = put_field "dedup_key" (some dedup_key) i in
      let i2 = put_field "dedup_hash" dedup_hash i1 in
      let i3 = put_field "notice_dedup_hash" dedup_hash i2 in
      let i4 = put_field "external_id" identity.external_id i3 in
      let i5 = put_field "notice_external_id" identity.external_id i4 in
      let i6 =
        put_field "notice_type"
          (some (type_text (normalize_notice_type (text_of "notice_type" i5)))) i5 in
      let i7 =
        put_field "content_hash"
          (ensure_content_hash
            (or_value (value_of "content_hash" i6) (value_of "raw_content_hash" i6))
            (value_of "content_text" i6))
          i6 in
      with_place identity.normalized_detail_url i7

  abbrev pub source_duplicate_key_of : Item → String
  source_duplicate_key_of i = or_else (text_of "source_duplicate_key" i) (
      build_source_duplicate_key python (value_of "source_code" i) (value_of "notice_type" i)
        (value_of "issuer" i) (key_fields i (value_of "publisher" i)))

  unfoldable pub normalize_notice_item : Item → Item
  normalize_notice_item i =
      let i' = with_identity (build_notice_identity i) i in
      put_field "source_duplicate_key" (some (source_duplicate_key_of i')) i'

  abbrev pub meta_field : String → Option Payload → Option JsonValue
  meta_field key none = none
  meta_field key (some p) = Payloads.get key p

  abbrev pub url_hash_of : Option String → Option String
  url_hash_of none = none
  url_hash_of (some url) = some (python.sha256_hexdigest url)

  abbrev pub document_key : Item → String
  document_key i =
      build_source_duplicate_key python (value_of "source_code" i)
        (meta_field "notice_type" i.extra_meta) (meta_field "issuer" i.extra_meta)
        (record {
          title = value_of "title" i;
          published_at = meta_field "published_at" i.extra_meta;
          purchaser = none;
          publisher = none;
          budget_amount = none;
          region = meta_field "region" i.extra_meta;
          detail_url = or_value (value_of "url" i) (value_of "normalized_url" i);
          detail_id = none;
        })

  -- A key that is there is kept as it is.
  abbrev pub with_document_key : Item → Item
  with_document_key i =
      if is_some (text_of "source_duplicate_key" i)
      then i
      else put_field "source_duplicate_key" (some (document_key i)) i

  unfoldable pub normalize_raw_document_item : Item → Item
  normalize_raw_document_item i =
      let url =
        normalize_detail_url python (or_value (value_of "normalized_url" i) (value_of "url" i)) in
      let i1 = put_field "normalized_url" url i in
      let i2 = put_field "url_hash" (url_hash_of url) i1 in
      let i3 =
        put_field "content_hash"
          (ensure_content_hash (value_of "content_hash" i2) (value_of "raw_body" i2)) i2 in
      with_document_key i3

  abbrev pub with_file_url : Option String → Item → Item
  with_file_url none i = i
  with_file_url (some url) i = put_field "file_url" (some url) i

  unfoldable pub normalize_attachment_item : Item → Item
  normalize_attachment_item i =
      let url = normalize_detail_url python (value_of "file_url" i) in
      put_field "url_hash" (url_hash_of url) (with_file_url url i)

  abbrev pub deduplication : Keys
  deduplication = record {
    normalize_notice_item = normalize_notice_item;
    normalize_raw_document_item = normalize_raw_document_item;
    normalize_attachment_item = normalize_attachment_item;
    normalize_title = normalize_title python;
    normalize_published_date = normalize_published_date python;
    normalize_purchaser_or_publisher = normalize_purchaser_or_publisher python;
    normalize_region = normalize_region python;
    normalize_budget_bucket = normalize_budget_bucket python;
  }
