-- ===== src/Crawler/Tests.antt =====
-- The writers and the keys on small items.
use tender_phase.Prelude.{
  Bool, false, ◌+◌, ◌*◌, ◌≤◌, false, Option, none, some, List, [], ◌∷◌, String, ◌≡◌, refl, length,
  arith,
}
use Prim.Native.Nat.{◌^◌}
use tender_phase.Prelude.Outcome.{returns}
use tender_phase.Clock.{seconds}
use tender_phase.Crawler.Rows.{NoticeVersion, Archive}
use tender_phase.Crawler.Notices.{
  write_notice, write_notice_at, exists_notice_version, resolve_notice, insert_notice, save_notice,
  clashes,
}
use tender_phase.Crawler.NoticeFields.{
  find_notice, notice_by, find_notice_by_high_similarity, apply_notice_fields, set_published, widen,
}
use tender_phase.Crawler.Versions.{resolve_notice_version}
use tender_phase.Crawler.Documents.{write_raw_document}
use tender_phase.Crawler.Writers.{Write, write_all}
use tender_phase.Crawler.Sources.{
  cached_source, source_site_id, source_of_item, in_session, add_stats,
}
use tender_phase.Crawler.Items.{as_text, as_int, as_datetime, or_value, guess_base_url}
use tender_phase.Jobs.Creation.{source_by_code}
use tender_phase.Jobs.Stats.{record_stats_in_session}
use tender_phase.Jobs.Samples.{waiting-IsConsistent}
use tender_phase.Payloads.{get, put, str_of}
use tender_phase.Prelude.Text.{as_str, strip, rstrip, lstrip, before_stripped, is_blank, is_space}
use tender_phase.Crawler.Losses.{IsLost, code_of, write_raw_document-IsLost}
use tender_phase.Crawler.Deduplication.Budgets.{Amount, bucket_steps}
use tender_phase.Crawler.Deduplication.Nearest.{bucket_steps-nearest}
use tender_phase.Table
use tender_phase.Crawler.Deduplication.Seeds.{KeyFields, signal_count, build_persistence_dedup_key}
use tender_phase.Crawler.Deduplication.Texts.{
  normalize_region, normalize_purchaser_or_publisher, normalize_lower, normalize_text, collapse,
  translate, or_none, drop_spaces,
}
use tender_phase.Crawler.Deduplication.Across.{persistence_key_across}
use tender_phase.Payloads.{text}
use tender_phase.Crawler.Invariant.{IsSound}
use tender_phase.Crawler.Keeping.{write_all-IsSound}
use tender_phase.Crawler.Twice.{write_notice_twice}
use tender_phase.Crawler.Numbers.{resolve_notice_version_returns}
use tender_phase.Crawler.Samples.{
  small, keys, one_key, one_key-IsKeys, titled, empty_archive, start, start-IsSound, road_works,
  longer_road, lost_page,
}

abbrev all_writes : List Write
all_writes =
    Write.notice road_works
    ∷ Write.notice_version road_works
    ∷ Write.notice_version longer_road
    ∷ Write.raw_document (seconds 9) lost_page
    ∷ Write.attachment road_works
    ∷ Write.error (seconds 9) (seconds 9) lost_page
    ∷ []

write_all-IsSound_example : IsSound (write_all small keys all_writes start).archive
write_all-IsSound_example = write_all-IsSound small keys all_writes start start-IsSound

first_written : (write_notice small one_key titled start).0 ≡ returns tt
unfolding write_notice in_session write_notice_at exists_notice_version as_text get put as_str strip
    rstrip lstrip before_stripped is_blank is_space str_of source_of_item source_site_id
    cached_source source_by_code guess_base_url resolve_notice find_notice notice_by
    find_notice_by_high_similarity or_value insert_notice save_notice clashes apply_notice_fields
    set_published widen add_stats record_stats_in_session as_int Table.insert Table.max_id
    as_datetime
first_written = refl

write_notice_twice_example :
    length
      (write_notice small one_key titled
        (write_notice small one_key titled start).1).1.archive.notices
    ≡ length (write_notice small one_key titled start).1.archive.notices
write_notice_twice_example =
    write_notice_twice small one_key one_key-IsKeys titled start first_written

resolve_notice_version_returns_example :
    (o : Option (NoticeVersion × Bool × Archive)) × (resolve_notice_version small 1 road_works
        empty_archive
      ≡ returns o)
resolve_notice_version_returns_example =
    resolve_notice_version_returns small 1 road_works empty_archive

unknown_code : source_by_code "new_source" empty_archive.base.sources ≡ none
unfolding source_by_code
unknown_code = refl

write_raw_document-IsLost_example :
    ((write_raw_document small one_key (seconds 9) lost_page start).1.archive ≡ start.archive)
    × IsLost (code_of lost_page) (write_raw_document small one_key (seconds 9) lost_page start).1
unfolding cached_source as_text get as_str strip rstrip lstrip before_stripped is_blank is_space
    str_of source_by_code
write_raw_document-IsLost_example =
    write_raw_document-IsLost small one_key (seconds 9) lost_page start waiting-IsConsistent refl
      refl refl

abbrev twelve : Amount
twelve = record { negative = false; digits = 1234; scale = 2 }

bucket_steps-nearest_example :
    (2 * (1234 * 10000) ≤ 2 * (bucket_steps 10000 twelve * 1000 * 10 ^ 2) + 1000 * 10 ^ 2)
    × (2 * (bucket_steps 10000 twelve * 1000 * 10 ^ 2) ≤ 2 * (1234 * 10000) + 1000 * 10 ^ 2)
bucket_steps-nearest_example = bucket_steps-nearest 10000 twelve

abbrev found_at : String → KeyFields
found_at url = record {
  title = some (text "road works");
  published_at = none;
  purchaser = some (text "town");
  publisher = none;
  budget_amount = none;
  region = some (text "east");
  detail_url = some (text url);
  detail_id = none;
}

two_signals : 2 ≤ signal_count small (found_at "https://a.example.org/1")
unfolding normalize_region normalize_purchaser_or_publisher normalize_lower normalize_text as_text
    as_str strip str_of or_none collapse drop_spaces translate
two_signals = omega arith

persistence_key_across_example :
    build_persistence_dedup_key small (found_at "https://a.example.org/1")
    ≡ build_persistence_dedup_key small (found_at "https://b.example.org/2")
persistence_key_across_example =
    persistence_key_across small (found_at "https://a.example.org/1")
      (found_at "https://b.example.org/2")
      (record { title = refl; date = refl; publisher = refl; budget = refl; region = refl })
      two_signals
