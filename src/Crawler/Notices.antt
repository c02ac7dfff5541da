-- ===== src/Crawler/Notices.antt =====
-- `_resolve_notice` and `SqlAlchemyNoticeWriter.write_notice`.
use tender_phase.Prelude.{
  ℕ, String, Bool, true, false, not, ◌&&◌, ◌||◌, Option, none, some, List, str_eq, ltb, ◌==◌,
  if◌then◌else◌, or_option, count,
}
use tender_phase.Prelude.Integers.{pos}
use tender_phase.Prelude.Outcome.{returns, raises, ◌>>=◌}
use tender_phase.Table
use tender_phase.Table.Fresh.{next_id}
use tender_phase.Jobs.Stats.{MetricDeltas}
use tender_phase.Crawler.Python.{Python}
use tender_phase.Crawler.Items.{Item, text_of, int_of}
use tender_phase.Crawler.Rows.{
  TenderNotice, NoticeVersion, Archive, WriterContext, Written, notice_identity, same_text,
  notice_id, drawn,
}
use tender_phase.Crawler.Keys.{Keys}
use tender_phase.Crawler.Sources.{in_session, no_deltas, add_stats, one_if, committed}
use tender_phase.Crawler.NoticeFields.{apply_notice_fields, find_notice, new_notice}

-- The unique constraints of `tender_notice`: another notice of the source with the same identity.
unfoldable pub clashes : TenderNotice → TenderNotice → Bool
clashes n m =
    not (m.id == n.id)
    && m.source_site_id == n.source_site_id
    && (same_text m.external_id n.external_id || same_text m.dedup_hash n.dedup_hash)

abbrev pub has_clash : TenderNotice → Archive → Bool
has_clash n a = ltb 0 (count (clashes n) a.notices)

abbrev pub added_notice : TenderNotice → Archive → Archive
added_notice n a = record a {
  notices = Table.insert n a.notices;
  next = record a.next { notices = drawn a.base.is_sqlite a.next.notices };
}

abbrev pub changed_notice : TenderNotice → Archive → Archive
changed_notice n a = record a {
  notices = Table.update_where (Table.has_id notice_id n.id) (λ _. n) a.notices;
}

unfoldable pub insert_notice : TenderNotice → Archive → Written Archive
insert_notice n a = if has_clash n a then raises notice_identity else returns (added_notice n a)

-- The UPDATE of a row whose object has been changed.
unfoldable pub save_notice : TenderNotice → Archive → Written Archive
save_notice n a = if has_clash n a then raises notice_identity else returns (changed_notice n a)

module _ (python : Python) (keys : Keys) where
  abbrev pub created_notice :
      ℕ → Item → Archive → Option String → Written (Option (TenderNotice × Bool × Archive))
  created_notice source_id i a none = returns none
  created_notice source_id i a (some title) =
      let n =
        new_notice python keys (next_id notice_id a.base.is_sqlite a.next.notices a.notices)
          source_id title i in
      insert_notice n a >>= λ a'. returns (some (n, true, a'))

  abbrev pub found_or_created :
      ℕ → Item → Archive → Option TenderNotice → Written (Option (TenderNotice × Bool × Archive))
  found_or_created source_id i a (some n) = returns (some (n, false, a))
  found_or_created source_id i a none = created_notice source_id i a (text_of "title" i)

  -- The notice of an item, and whether it has just been created; `none` if it has no title.
  unfoldable pub resolve_notice :
      ℕ → Item → Archive → Written (Option (TenderNotice × Bool × Archive))
  resolve_notice source_id i a =
      found_or_created source_id i a (find_notice python keys source_id i a.notices)

abbrev pub of_source : ℕ → List TenderNotice → NoticeVersion → Bool
of_source source_id ns v =
    ltb 0 (count (λ n. n.id == v.notice_id && n.source_site_id == source_id) ns)

abbrev pub has_content :
    ℕ → List TenderNotice → Option String → Option String → String → NoticeVersion → Bool
has_content source_id ns dedup_key source_duplicate_key content_hash v =
    of_source source_id ns v
    && (same_text v.dedup_key dedup_key || same_text v.source_duplicate_key source_duplicate_key)
    && str_eq v.content_hash content_hash

-- `_exists_notice_version_with_identity_content`
unfoldable pub exists_notice_version :
    ℕ → Option String → Option String → Option String → Archive → Bool
exists_notice_version source_id dedup_key source_duplicate_key none a = false
exists_notice_version source_id dedup_key source_duplicate_key (some content_hash) a =
    ltb 0 (
      count (has_content source_id a.notices dedup_key source_duplicate_key content_hash)
        a.versions)

abbrev pub notice_deltas : Bool → MetricDeltas
notice_deltas created = record no_deltas {
  notices_upserted = pos 1;
  deduplicated_count = one_if (not created);
  records_inserted = one_if created;
  records_updated = one_if (not created);
}

module _ (python : Python) (keys : Keys) where
  abbrev pub store_notice : Item → Option (TenderNotice × Bool × Archive) → Written (Option Archive)
  store_notice i none = returns none
  store_notice i (some (n, created, a)) = committed (
      save_notice (apply_notice_fields python keys i n) a >>= λ a'.
      add_stats (int_of "crawl_job_id" i) (notice_deltas created) a')

  unfoldable pub write_notice_at : Item → ℕ → Archive → Written (Option Archive)
  write_notice_at i source_id a =
      let source_duplicate_key = text_of "source_duplicate_key" i in
      let dedup_key = or_option (text_of "dedup_key" i) source_duplicate_key in
      if exists_notice_version source_id dedup_key source_duplicate_key (text_of "content_hash" i) a
      then committed (
          add_stats (int_of "crawl_job_id" i)
            (record no_deltas { deduplicated_count = pos 1; source_duplicates_suppressed = pos 1 })
            a)
      else resolve_notice python keys source_id i a >>= store_notice i

  unfoldable pub write_notice : Item → WriterContext → Written (Unit {0}) × WriterContext
  write_notice raw c =
      let i = keys.normalize_notice_item raw in in_session python i (write_notice_at i) c
