-- ===== src/Crawler/Versions.antt =====
-- `_resolve_notice_version` and `SqlAlchemyNoticeWriter.write_notice_version`.
use tender_phase.Prelude.{
  ℕ, String, Bool, true, false, not, ◌&&◌, Option, none, some, List, [], str_eq, ◌==◌,
  if◌then◌else◌, or_else, or_option, select,
}
use tender_phase.Prelude.Integers.{ℤ}
use tender_phase.Prelude.Outcome.{returns, ◌>>=◌}
use tender_phase.Payloads.{Payload, JsonValue, text}
use tender_phase.Payloads
use tender_phase.Table
use tender_phase.Table.Fresh.{next_id}
use tender_phase.Crawler.Python.{Python}
use tender_phase.Crawler.Items.{Item, value_of, text_of, int_of, as_bool, as_datetime, as_decimal}
use tender_phase.Crawler.Rows.{
  TenderNotice, NoticeVersion, Archive, WriterContext, Written, version_id,
}
use tender_phase.Crawler.Keys.{Keys}
use tender_phase.Crawler.Sources.{in_session, no_deltas, add_stats, one_if, committed}
use tender_phase.Crawler.Documents.{document_at}
use tender_phase.Crawler.Notices.{save_notice, resolve_notice}
use tender_phase.Crawler.NoticeFields.{normalize_notice_type, type_text, widen, apply_notice_fields}
use tender_phase.Crawler.VersionNumbers.{
  Choice, choose_version, insert_version, keep, number, or_one,
}

module _ (python : Python) where
  abbrev pub new_version : ℕ → ℕ → ℤ → String → String → Item → NoticeVersion
  new_version id k version_no title content_hash i = record {
    id = id;
    notice_id = k;
    raw_document_id = none;
    version_no = version_no;
    is_current = as_bool (value_of "is_current" i) true;
    content_hash = content_hash;
    dedup_key = or_option (text_of "dedup_key" i) (text_of "source_duplicate_key" i);
    source_duplicate_key = text_of "source_duplicate_key" i;
    title = title;
    notice_type = normalize_notice_type (text_of "notice_type" i);
    issuer = text_of "issuer" i;
    region = text_of "region" i;
    published_at = as_datetime python (value_of "published_at" i);
    deadline_at = as_datetime python (value_of "deadline_at" i);
    budget_amount = as_decimal python (value_of "budget_amount" i);
    budget_currency = or_else (text_of "budget_currency" i) "CNY";
    structured_data = or_else i.structured_data [];
    change_summary = text_of "change_summary" i;
  }

  abbrev pub created_version :
      ℕ
      → Item
      → Archive
      → ℤ
      → Option String
      → Option String
      → Written (Option (NoticeVersion × Bool × Archive))
  created_version k i a version_no (some title) (some content_hash) =
      let v =
        new_version (next_id version_id a.base.is_sqlite a.next.versions a.versions) k version_no
          title content_hash i in
      insert_version v a >>= λ a'. returns (some (v, true, a'))
  created_version k i a version_no none content_hash = returns none
  created_version k i a version_no (some title) none = returns none

  abbrev pub kept_or_created :
      ℕ → Item → Archive → Choice → Written (Option (NoticeVersion × Bool × Archive))
  kept_or_created k i a (keep v) = returns (some (v, false, a))
  kept_or_created k i a (number n) =
      created_version k i a n (text_of "title" i) (text_of "content_hash" i)

  -- The version of an item, and whether it has just been created.
  unfoldable pub resolve_notice_version :
      ℕ → Item → Archive → Written (Option (NoticeVersion × Bool × Archive))
  resolve_notice_version k i a =
      kept_or_created k i a
        (choose_version k (text_of "content_hash" i) (or_one (int_of "version_no" i)) a.versions)

  abbrev pub not_null : String × JsonValue → Bool
  not_null (key, JsonValue.null) = false
  not_null (key, JsonValue.bool b) = true
  not_null (key, JsonValue.int n) = true
  not_null (key, JsonValue.text t) = true
  not_null (key, JsonValue.other t) = true

  -- `structured_data.update(...)`: what is `None` is left out in the end.
  abbrev pub drop_key : String → Payload → Payload
  drop_key key p = select (λ kv. not (str_eq kv.0 key)) p

  abbrev pub update_text : String → Item → Payload → Payload
  update_text key i p = elim (text_of key i) [
    | none ↦ drop_key key p
    | some t ↦ Payloads.put key (text t) p
  ]

  unfoldable pub version_data : Item → Payload
  version_data i = select not_null (
      update_text "content_text" i (
        update_text "detail_page_url" i (
          update_text "list_page_url" i (
            update_text "source_site_url" i
              (update_text "source_site_name" i (or_else i.structured_data []))))))

  abbrev pub version_row : Item → TenderNotice → Option ℕ → NoticeVersion → NoticeVersion
  version_row i n document v = record v {
    raw_document_id = document;
    is_current = as_bool (value_of "is_current" i) true;
    content_hash = or_else (text_of "content_hash" i) v.content_hash;
    dedup_key =
        or_option (text_of "dedup_key" i)
          (or_option (text_of "source_duplicate_key" i) v.dedup_key);
    source_duplicate_key = or_option (text_of "source_duplicate_key" i) v.source_duplicate_key;
    title = or_else (text_of "title" i) n.title;
    notice_type =
        normalize_notice_type (some (or_else (text_of "notice_type" i) (type_text n.notice_type)));
    issuer = text_of "issuer" i;
    region = text_of "region" i;
    published_at = as_datetime python (value_of "published_at" i);
    deadline_at = as_datetime python (value_of "deadline_at" i);
    budget_amount = as_decimal python (value_of "budget_amount" i);
    budget_currency = or_else (text_of "budget_currency" i) "CNY";
    structured_data = version_data i;
    change_summary = text_of "change_summary" i;
  }

  abbrev pub document_of : ℕ → Item → Archive → Option ℕ
  document_of source_id i a = elim (text_of "raw_document_url_hash" i) [
    | none ↦ none
    | some url_hash ↦ elim (document_at source_id url_hash a) [ none ↦ none | some d ↦ some d.id ]
  ]

abbrev pub is_another : ℕ → ℕ → NoticeVersion → Bool
is_another k id v = v.notice_id == k && not (v.id == id)

abbrev pub retire : NoticeVersion → NoticeVersion
retire v = record v { is_current = false }

-- The UPDATE of the version, and the one that leaves no other version of the notice current.
unfoldable pub set_version : NoticeVersion → List NoticeVersion → List NoticeVersion
set_version v vs =
    let saved = Table.update_where (Table.has_id version_id v.id) (λ _. v) vs in
    if v.is_current then Table.update_where (is_another v.notice_id v.id) retire saved else saved

abbrev pub point_to : NoticeVersion → TenderNotice → TenderNotice
point_to v n = if v.is_current then record n { current_version_id = some v.id } else n

module _ (python : Python) (keys : Keys) where
  abbrev pub store_version :
      Item → ℕ → TenderNotice → Option (NoticeVersion × Bool × Archive) → Written (Option Archive)
  store_version i source_id n none = returns none
  store_version i source_id n (some (v, created, a)) =
      let v' = version_row python i n (document_of python source_id i a) v in
      committed (
        save_notice (widen v'.published_at (point_to v' n))
          (record a { versions = set_version v' a.versions })
        >>= λ a'.
            add_stats (int_of "crawl_job_id" i)
              (record no_deltas {
                deduplicated_count = one_if (not created);
                records_inserted = one_if created;
                records_updated = one_if (not created);
              })
              a')

  abbrev pub version_of_notice :
      Item → ℕ → Option (TenderNotice × Bool × Archive) → Written (Option Archive)
  version_of_notice i source_id none = returns none
  version_of_notice i source_id (some (found, created, a)) =
      let n = apply_notice_fields python keys i found in
      save_notice n a >>= λ a'.
      resolve_notice_version python n.id i a' >>= store_version i source_id n

  unfoldable pub write_version_at : Item → ℕ → Archive → Written (Option Archive)
  write_version_at i source_id a =
      resolve_notice python keys source_id i a >>= version_of_notice i source_id

  unfoldable pub write_notice_version : Item → WriterContext → Written (Unit {0}) × WriterContext
  write_notice_version raw c =
      let i = keys.normalize_notice_item raw in in_session python i (write_version_at i) c
