-- ===== src/Crawler/Sources.antt =====
-- `SqlAlchemyWriterContext.source_site_id`, the session of a writer, and the counters of its job.
use tender_phase.Prelude.{
  ℕ, String, Bool, true, false, Option, none, some, List, [], ◌∷◌, str_eq, if◌then◌else◌, or_else,
}
use tender_phase.Prelude.Integers.{ℤ, pos, negsuc}
use tender_phase.Prelude.Outcome.{returns, raises, ◌>>=◌}
use tender_phase.Model.{SourceSite, CrawlJob, Database}
use tender_phase.Session.{Result}
use tender_phase.Table
use tender_phase.Jobs.Stats.{MetricDeltas, record_stats_in_session}
use tender_phase.Jobs.Creation.{source_by_code, new_source_id}
use tender_phase.Crawler.Python.{Python}
use tender_phase.Crawler.Items.{Item, text_of, guess_base_url}
use tender_phase.Crawler.Rows.{Archive, WriterContext, service, Written, drawn}

unfoldable pub cached_source : String → List (String × ℕ) → Option ℕ
cached_source code [] = none
cached_source code ((c, id) ∷ rest) = if str_eq c code then some id else cached_source code rest

abbrev pub crawler_source : ℕ → String → Option String → Option String → SourceSite
crawler_source id code source_name source_url =
    let url = or_else source_url "https://example.com" in
    record {
      id = id;
      code = code;
      name = or_else source_name code;
      base_url = url;
      official_url = url;
      list_url = url;
      description = some "auto-created by crawler";
      is_active = true;
      supports_js_render = false;
      crawl_interval_minutes = 60;
      default_max_pages = 50;
      schedule_enabled = false;
      schedule_days = 1;
      last_scheduled_run_at = none;
      next_scheduled_run_at = none;
      last_schedule_status = none;
    }

abbrev pub add_crawler_source : String → Option String → Option String → Database → ℕ × Database
add_crawler_source code source_name source_url db =
    let id = new_source_id db in
    (
      id,
      record db {
        sources = Table.insert (crawler_source id code source_name source_url) db.sources;
        next_source_id = drawn db.is_sqlite db.next_source_id;
      },
    )

abbrev pub looked_up :
    String → Option String → Option String → Database → Option SourceSite → ℕ × Database
looked_up code source_name source_url db (some source) = (source.id, db)
looked_up code source_name source_url db none = add_crawler_source code source_name source_url db

-- The id of the source, and the context: what is cached is kept whatever becomes of the session.
abbrev pub after_cache :
    (source_code : String) (source_name source_url : Option String)
    → WriterContext
    → Option ℕ
    → ℕ × WriterContext
after_cache source_code source_name source_url c (some id) = (id, c)
after_cache source_code source_name source_url c none =
    let (id, db) =
      looked_up source_code source_name source_url c.archive.base
        (source_by_code source_code c.archive.base.sources) in
    (
      id,
      record {
        archive = record c.archive { base = db };
        source_cache = (source_code, id) ∷ c.source_cache;
      },
    )

unfoldable pub source_site_id :
    (source_code : String) (source_name source_url : Option String)
    → WriterContext
    → ℕ × WriterContext
source_site_id source_code source_name source_url c =
    after_cache source_code source_name source_url c (cached_source source_code c.source_cache)

module _ (python : Python) where
  unfoldable pub source_of_item : Item → WriterContext → ℕ × WriterContext
  source_of_item i c =
      source_site_id (or_else (text_of "source_code" i) "unknown_source")
        (text_of "source_site_name" i)
        (some (or_else (text_of "source_site_url" i) (guess_base_url python i))) c

  -- A writer's session, after its source has been found: the body commits an archive, returns
  -- without a commit, or raises. The last two roll back, the new source included.
  abbrev pub end_session :
      WriterContext → WriterContext → Written (Option Archive) → Written (Unit {0}) × WriterContext
  end_session before found (returns (some a)) = (returns tt, record found { archive = a })
  end_session before found (returns none) = (returns tt, record found { archive = before.archive })
  end_session before found (raises e) = (raises e, record found { archive = before.archive })

  unfoldable pub in_session :
      Item
      → (ℕ → Archive → Written (Option Archive))
      → WriterContext
      → Written (Unit {0}) × WriterContext
  in_session i body c =
      let (source_id, found) = source_of_item i c in
      end_session c found (body source_id found.archive)

abbrev pub no_deltas : MetricDeltas
no_deltas = record {
  pages_fetched = pos 0;
  documents_saved = pos 0;
  notices_upserted = pos 0;
  deduplicated_count = pos 0;
  error_count = pos 0;
  list_items_seen = pos 0;
  list_items_unique = pos 0;
  list_items_source_duplicates_skipped = pos 0;
  detail_pages_fetched = pos 0;
  records_inserted = pos 0;
  records_updated = pos 0;
  source_duplicates_suppressed = pos 0;
}

-- No job has a negative id.
abbrev pub job_number : Option ℤ → Option ℕ
job_number none = none
job_number (some (pos n)) = some n
job_number (some (negsuc n)) = none

abbrev pub with_stats : Archive → Result (Option CrawlJob × Database) → Written Archive
with_stats a (returns (job, db)) = returns (record a { base = db })
with_stats a (raises e) = raises (service e)

-- `crawl_job_service.record_stats_in_session`
unfoldable pub add_stats : Option ℤ → MetricDeltas → Archive → Written Archive
add_stats job_id d a = with_stats a (record_stats_in_session (job_number job_id) d a.base)

-- `1 if test else 0`
abbrev pub one_if : Bool → ℤ
one_if b = if b then pos 1 else pos 0

-- `session.commit()` at the end of a writer
abbrev pub committed : Written Archive → Written (Option Archive)
committed m = m >>= λ a. returns (some a)
