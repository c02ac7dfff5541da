-- ===== src/Jobs/Stats.antt =====
-- `record_stats_in_session`: the counters of a job.
use tender_phase.Prelude.{ℕ, ◌+◌, Bool, ◌&&◌, Option, none, some, ◌==◌, if◌then◌else◌}
use tender_phase.Prelude.Integers.{ℤ}
use tender_phase.Model.{JobMetrics, CrawlJob, Database}
use tender_phase.Session.{Result, ok, ◌>>=◌}
use tender_phase.Jobs.Rules.{normalize_non_negative_delta}
use tender_phase.Jobs.Lifecycle.{get_job, has_id, update_jobs}

-- The increments that a caller passes, which may be negative.
pub record MetricDeltas : Type 0 where
  pub pages_fetched : ℤ
  pub documents_saved : ℤ
  pub notices_upserted : ℤ
  pub deduplicated_count : ℤ
  pub error_count : ℤ
  pub list_items_seen : ℤ
  pub list_items_unique : ℤ
  pub list_items_source_duplicates_skipped : ℤ
  pub detail_pages_fetched : ℤ
  pub records_inserted : ℤ
  pub records_updated : ℤ
  pub source_duplicates_suppressed : ℤ

unfoldable pub normalize_deltas : MetricDeltas → Result JobMetrics
normalize_deltas a = do
  d1 ← normalize_non_negative_delta a.pages_fetched "pages_fetched"
  d2 ← normalize_non_negative_delta a.documents_saved "documents_saved"
  d3 ← normalize_non_negative_delta a.notices_upserted "notices_upserted"
  d4 ← normalize_non_negative_delta a.deduplicated_count "deduplicated_count"
  d5 ← normalize_non_negative_delta a.error_count "error_count"
  d6 ← normalize_non_negative_delta a.list_items_seen "list_items_seen"
  d7 ← normalize_non_negative_delta a.list_items_unique "list_items_unique"
  d8 ←
      normalize_non_negative_delta a.list_items_source_duplicates_skipped
        "list_items_source_duplicates_skipped"
  d9 ← normalize_non_negative_delta a.detail_pages_fetched "detail_pages_fetched"
  d10 ← normalize_non_negative_delta a.records_inserted "records_inserted"
  d11 ← normalize_non_negative_delta a.records_updated "records_updated"
  d12 ← normalize_non_negative_delta a.source_duplicates_suppressed "source_duplicates_suppressed"
  ok (record {
    pages_fetched = d1;
    documents_saved = d2;
    notices_upserted = d3;
    deduplicated_count = d4;
    error_count = d5;
    list_items_seen = d6;
    list_items_unique = d7;
    list_items_source_duplicates_skipped = d8;
    detail_pages_fetched = d9;
    records_inserted = d10;
    records_updated = d11;
    source_duplicates_suppressed = d12;
  })

-- `not any(deltas.values())`
abbrev pub all_zero : JobMetrics → Bool
all_zero d =
    d.pages_fetched == 0
    && d.documents_saved == 0
    && d.notices_upserted == 0
    && d.deduplicated_count == 0
    && d.error_count == 0
    && d.list_items_seen == 0
    && d.list_items_unique == 0
    && d.list_items_source_duplicates_skipped == 0
    && d.detail_pages_fetched == 0
    && d.records_inserted == 0
    && d.records_updated == 0
    && d.source_duplicates_suppressed == 0

abbrev pub add_metrics : JobMetrics → JobMetrics → JobMetrics
add_metrics m d = record {
  pages_fetched = m.pages_fetched + d.pages_fetched;
  documents_saved = m.documents_saved + d.documents_saved;
  notices_upserted = m.notices_upserted + d.notices_upserted;
  deduplicated_count = m.deduplicated_count + d.deduplicated_count;
  error_count = m.error_count + d.error_count;
  list_items_seen = m.list_items_seen + d.list_items_seen;
  list_items_unique = m.list_items_unique + d.list_items_unique;
  list_items_source_duplicates_skipped =
      m.list_items_source_duplicates_skipped + d.list_items_source_duplicates_skipped;
  detail_pages_fetched = m.detail_pages_fetched + d.detail_pages_fetched;
  records_inserted = m.records_inserted + d.records_inserted;
  records_updated = m.records_updated + d.records_updated;
  source_duplicates_suppressed = m.source_duplicates_suppressed + d.source_duplicates_suppressed;
}

abbrev pub stats_row : JobMetrics → CrawlJob → CrawlJob
stats_row d j = record j { metrics = add_metrics j.metrics d }

unfoldable pub stats_found :
    ℕ → JobMetrics → Database → Option CrawlJob → Result (Option CrawlJob × Database)
stats_found job_id d db none = ok (none, db)
stats_found job_id d db (some job) =
    ok (some (stats_row d job), update_jobs (has_id job_id) (stats_row d) db)

unfoldable pub record_stats_in_session :
    Option ℕ → MetricDeltas → Database → Result (Option CrawlJob × Database)
record_stats_in_session none a db = ok (none, db)
record_stats_in_session (some job_id) a db = do
  d ← normalize_deltas a
  if all_zero d then ok (get_job job_id db, db) else stats_found job_id d db (get_job job_id db)
