-- ===== src/Crawler/Keeping.antt =====
-- Whatever the writers are given, in any order, the tables stay sound.
use tender_phase.Prelude.{ℕ, String, Option, none, some, List, [], ◌∷◌, ◌≡◌, refl, or_else}
use tender_phase.Prelude.Outcome.{returns, raises}
use tender_phase.Clock.{Time}
use tender_phase.Model.{SourceSite, Database}
use tender_phase.Jobs.Creation.{source_by_code, new_source_id}
use tender_phase.Jobs.Invariant.{IsConsistent}
use tender_phase.Jobs.Found.{source_by_code-none}
use tender_phase.Jobs.Sources.{added-IsConsistent}
use tender_phase.Crawler.Python.{Python}
use tender_phase.Crawler.Items.{Item, text_of, int_of, guess_base_url}
use tender_phase.Crawler.Rows.{Archive, WriterContext, Written}
use tender_phase.Crawler.Keys.{Keys}
use tender_phase.Crawler.Sources.{
  cached_source, crawler_source, looked_up, after_cache, source_site_id, source_of_item,
  end_session, in_session,
}
use tender_phase.Crawler.Documents.{write_raw_document, write_error}
use tender_phase.Crawler.Notices.{write_notice}
use tender_phase.Crawler.Versions.{write_notice_version}
use tender_phase.Crawler.Attachments.{write_attachment}
use tender_phase.Crawler.Writers.{
  Write, raw_document, notice, notice_version, attachment, error, write, write_all,
}
use tender_phase.Crawler.Invariant.{IsSound, IsSound-same}
use tender_phase.Crawler.Saves.{add_stats-IsSound}
use tender_phase.Crawler.Bodies.{
  Commits, Commits-committed, write_document_at-Commits, write_notice_at-Commits,
  write_version_at-Commits, write_attachment_at-Commits,
}

-- A source is found, or added with a code that none had.
abbrev FoundOrAdded : Database → ℕ × Database → Type 0
FoundOrAdded db (id, db') = IsConsistent db' × (db'.is_sqlite ≡ db.is_sqlite)

looked_up-IsConsistent :
    (code : String) (name url : Option String) (db : Database) (o : Option SourceSite)
    → source_by_code code db.sources ≡ o
    → IsConsistent db
    → FoundOrAdded db (looked_up code name url db o)
looked_up-IsConsistent code name url db (some s) e c = (c, refl)
looked_up-IsConsistent code name url db none e c = (
  added-IsConsistent (crawler_source (new_source_id db) code name url) db c refl
      (source_by_code-none code db.sources e),
  refl,
)

after_cache-IsSound :
    (code : String) (name url : Option String) (c : WriterContext) (o : Option ℕ)
    → IsSound c.archive
    → IsSound (after_cache code name url c o).1.archive
after_cache-IsSound code name url c (some id) h = h
after_cache-IsSound code name url c none h =
    let (consistent, kind) =
      looked_up-IsConsistent code name url c.archive.base
        (source_by_code code c.archive.base.sources) refl h.jobs_consistent in
    IsSound-same h consistent kind refl refl refl refl

source_of_item-IsSound :
    (python : Python) (i : Item) (c : WriterContext)
    → IsSound c.archive
    → IsSound (source_of_item python i c).1.archive
unfolding source_of_item source_site_id
source_of_item-IsSound python i c h =
    let code = or_else (text_of "source_code" i) "unknown_source" in
    after_cache-IsSound code (text_of "source_site_name" i)
      (some (or_else (text_of "source_site_url" i) (guess_base_url python i))) c
      (cached_source code c.source_cache) h

module _ (python : Python) (keys : Keys) where
  end_session-IsSound :
      (before found : WriterContext) (r : Written (Option Archive))
      → IsSound before.archive
      → Commits r
      → IsSound (end_session python before found r).1.archive
  end_session-IsSound before found (returns (some a)) h hr = hr
  end_session-IsSound before found (returns none) h hr = h
  end_session-IsSound before found (raises e) h hr = h

  in_session-IsSound :
      (i : Item) (body : ℕ → Archive → Written (Option Archive)) (c : WriterContext)
      → ((source_id : ℕ) (a : Archive) → IsSound a → Commits (body source_id a))
      → IsSound c.archive
      → IsSound (in_session python i body c).1.archive
  unfolding in_session
  in_session-IsSound i body c keeps h =
      let (source_id, found) = source_of_item python i c in
      end_session-IsSound c found (body source_id found.archive) h
        (keeps source_id found.archive (source_of_item-IsSound python i c h))

  write_error-IsSound :
      (now created_at : Time) (i : Item) (c : WriterContext)
      → IsSound c.archive
      → IsSound (write_error python keys now created_at i c).1.archive
  unfolding write_error
  write_error-IsSound now created_at i c h =
      in_session-IsSound i _ c
        (λ source_id a ha. Commits-committed _ (
          add_stats-IsSound (int_of "crawl_job_id" i) _ _
            (IsSound-same ha ha.jobs_consistent refl refl refl refl refl)))
        h

  write-IsSound :
      (w : Write) (c : WriterContext) → IsSound c.archive → IsSound (write python keys w c).archive
  unfolding write write_raw_document write_notice write_notice_version write_attachment
  write-IsSound (raw_document now raw) c h =
      let i = keys.normalize_raw_document_item raw in
      in_session-IsSound i _ c
        (λ source_id a.
          write_document_at-Commits python keys i now source_id a (text_of "url_hash" i))
        h
  write-IsSound (notice raw) c h =
      let i = keys.normalize_notice_item raw in
      in_session-IsSound i _ c (write_notice_at-Commits python keys i) h
  write-IsSound (notice_version raw) c h =
      let i = keys.normalize_notice_item raw in
      in_session-IsSound i _ c (write_version_at-Commits python keys i) h
  write-IsSound (attachment raw) c h =
      let i = keys.normalize_attachment_item (keys.normalize_notice_item raw) in
      in_session-IsSound i _ c (write_attachment_at-Commits python keys i) h
  write-IsSound (error now created_at i) c h = write_error-IsSound now created_at i c h

  -- Whatever the writers are given, in any order, and whatever they raise: the tables of the job
  -- service stay consistent, ids stay distinct, a notice has one current version at most, and its
  -- time of publication lies between its first and its latest one.
  pub write_all-IsSound :
      (ws : List Write) (c : WriterContext)
      → IsSound c.archive
      → IsSound (write_all python keys ws c).archive
  unfolding write_all
  write_all-IsSound [] c h = h
  write_all-IsSound (w ∷ ws) c h =
      write_all-IsSound ws (write python keys w c) (write-IsSound w c h)
