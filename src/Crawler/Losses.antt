-- ===== src/Crawler/Losses.antt =====
-- A session that is rolled back leaves the id of its new source in the cache.
use tender_phase.Prelude.{ℕ, String, none, some, ◌≡◌, refl, ◌==◌, count, or_else, eq_iff}
use tender_phase.Clock.{Time}
use tender_phase.Jobs.Creation.{source_id, source_by_code, new_source_id}
use tender_phase.Jobs.Invariant.{IsConsistent}
use tender_phase.Jobs.Sources.{new_source_id_free}
use tender_phase.Crawler.Python.{Python}
use tender_phase.Crawler.Items.{Item, text_of}
use tender_phase.Crawler.Rows.{WriterContext}
use tender_phase.Crawler.Keys.{Keys}
use tender_phase.Crawler.Sources.{cached_source, source_site_id, source_of_item, in_session}
use tender_phase.Crawler.Documents.{write_raw_document}

-- The cache has an id for the code, and no source has that id.
pub record IsLost (code : String) (c : WriterContext) : Type 0 where
  pub lost_id : ℕ
  pub cached : cached_source code c.source_cache ≡ some lost_id
  pub no_source : count (λ s. source_id s == lost_id) c.archive.base.sources ≡ 0

abbrev pub code_of : Item → String
code_of i = or_else (text_of "source_code" i) "unknown_source"

module _ (python : Python) (keys : Keys) (now : Time) (raw : Item) (c : WriterContext) where
  -- With consistent tables, a raw document without a URL from a source that is new to the cache and
  -- to the database is passed over: the database is as it was, but the cache keeps an id for the
  -- source that no source has.
  pub write_raw_document-IsLost :
      IsConsistent c.archive.base
      → cached_source (code_of (keys.normalize_raw_document_item raw)) c.source_cache ≡ none
      → source_by_code (code_of (keys.normalize_raw_document_item raw)) c.archive.base.sources
        ≡ none
      → text_of "url_hash" (keys.normalize_raw_document_item raw) ≡ none
      → ((write_raw_document python keys now raw c).1.archive ≡ c.archive)
        × IsLost
            (code_of (keys.normalize_raw_document_item raw))
            (write_raw_document python keys now raw c).1
  unfolding write_raw_document in_session source_of_item source_site_id cached_source
  write_raw_document-IsLost consistent uncached absent no_url =
      rw (uncached, absent, no_url)
        (
          refl,
          record {
            lost_id = new_source_id c.archive.base;
            cached =
                rw
                  ((eq_iff (code_of (keys.normalize_raw_document_item raw))
                      (code_of (keys.normalize_raw_document_item raw))).1
                    refl)
                  refl;
            no_source = new_source_id_free c.archive.base consistent;
          },
        )
