-- ===== src/Jobs/Counters.antt =====
-- `record_stats`: the counters that workers add up.
use tender_phase.Prelude.{
  ℕ, ◌+◌, Bool, true, Option, none, some, List, [], ◌∷◌, ◌≡◌, refl, sym, ap, ◌∙◌, arith,
  if◌then◌else◌, Bool-cases, Option-cases, inl, inr, ◌⊎◌,
}
use mathlib.Core.Option
use tender_phase.Prelude.Integers.{pos}
use tender_phase.Model.{JobMetrics, CrawlJob, Database}
use tender_phase.Table
use tender_phase.Table.Laws.{get-update_where, id-get, count-get}
use tender_phase.Table.One.{update_where_none}
use tender_phase.Session.{Error, Result, ok, err, commit_some}
use tender_phase.Jobs.Rules.{normalize_non_negative_delta}
use tender_phase.Jobs.Lifecycle.{get_job, has_id, update_jobs}
use tender_phase.Jobs.Stats.{
  MetricDeltas, normalize_deltas, all_zero, add_metrics, stats_row, stats_found,
  record_stats_in_session,
}
use tender_phase.Jobs.Creation.{job_id}
use tender_phase.Jobs.Service.{snapshot, record_stats}

Result-cases : {A : Type 0} (r : Result A) → ((a : A) × (r ≡ ok a)) ⊎ ((e : Error) × (r ≡ err e))
Result-cases (ok a) = inl (a, refl)
Result-cases (err e) = inr (e, refl)

-- What a call with these increments does to the row.
abbrev pub stats_change : Result JobMetrics → CrawlJob → CrawlJob
stats_change (ok d) j = stats_row d j
stats_change (err e) j = j

swapped : (m a b : ℕ) → m + a + b ≡ m + b + a
swapped m a b = omega arith

add_swap : (m a b : JobMetrics) → add_metrics (add_metrics m a) b ≡ add_metrics (add_metrics m b) a
add_swap m a b = λ i. record {
  pages_fetched = swapped m.pages_fetched a.pages_fetched b.pages_fetched i;
  documents_saved = swapped m.documents_saved a.documents_saved b.documents_saved i;
  notices_upserted = swapped m.notices_upserted a.notices_upserted b.notices_upserted i;
  deduplicated_count = swapped m.deduplicated_count a.deduplicated_count b.deduplicated_count i;
  error_count = swapped m.error_count a.error_count b.error_count i;
  list_items_seen = swapped m.list_items_seen a.list_items_seen b.list_items_seen i;
  list_items_unique = swapped m.list_items_unique a.list_items_unique b.list_items_unique i;
  list_items_source_duplicates_skipped =
      swapped m.list_items_source_duplicates_skipped a.list_items_source_duplicates_skipped
        b.list_items_source_duplicates_skipped i;
  detail_pages_fetched =
      swapped m.detail_pages_fetched a.detail_pages_fetched b.detail_pages_fetched i;
  records_inserted = swapped m.records_inserted a.records_inserted b.records_inserted i;
  records_updated = swapped m.records_updated a.records_updated b.records_updated i;
  source_duplicates_suppressed =
      swapped m.source_duplicates_suppressed a.source_duplicates_suppressed
        b.source_duplicates_suppressed i;
}

add_zero : (m d : JobMetrics) → all_zero d ≡ true → add_metrics m d ≡ m
add_zero m d h = grind arith

stats_same : (j : CrawlJob) (d : JobMetrics) → all_zero d ≡ true → stats_row d j ≡ j
stats_same j d h = ap (λ m. record j { metrics = m }) (add_zero j.metrics d h)

-- An UPDATE that changes no row of the test.
update_where_same :
    (test : CrawlJob → Bool) (change : CrawlJob → CrawlJob) (xs : List CrawlJob)
    → ((j : CrawlJob) → change j ≡ j)
    → Table.update_where test change xs ≡ xs
unfolding Table.update_where
update_where_same test change [] same = refl
update_where_same test change (x ∷ xs) same = elim (Bool-cases (test x)) [
  | inl hit ↦ rw (hit, same x, update_where_same test change xs same)
  | inr miss ↦ rw (miss, update_where_same test change xs same)
]

found_recorded :
    (k : ℕ) (d : JobMetrics) (db : Database)
    → (commit_some snapshot (stats_found k d db (get_job k db)) db).1
      ≡ update_jobs (has_id k) (stats_row d) db
unfolding stats_found
found_recorded k d db = elim (Option-cases (get_job k db)) [
  | inl missing ↦ rw missing (
      sym (
        ap (λ js. record db { jobs = js })
          (update_where_none (has_id k) (stats_row d) db.jobs
            (count-get job_id k db.jobs missing))))
  | inr (j, found) ↦ rw found
]

zero_recorded :
    (k : ℕ) (o : Option CrawlJob) (d : JobMetrics) (db : Database)
    → all_zero d ≡ true
    → (commit_some snapshot (ok (o, db)) db).1 ≡ update_jobs (has_id k) (stats_row d) db
zero_recorded k none d db h = sym (
    ap (λ js. record db { jobs = js })
      (update_where_same (has_id k) (stats_row d) db.jobs (λ j. stats_same j d h)))
zero_recorded k (some j) d db h = sym (
    ap (λ js. record db { jobs = js })
      (update_where_same (has_id k) (stats_row d) db.jobs (λ j'. stats_same j' d h)))

-- What a call leaves, in all its branches.
recorded :
    (k : ℕ) (a : MetricDeltas) (db : Database)
    → (record_stats k a db).1 ≡ update_jobs (has_id k) (stats_change (normalize_deltas a)) db
unfolding record_stats record_stats_in_session
recorded k a db = elim (Result-cases (normalize_deltas a)) [
  | inl (d, reads) ↦ elim (Bool-cases (all_zero d)) [
    | inl zeros ↦ rw (reads, zeros) (zero_recorded k (get_job k db) d db zeros)
    | inr more ↦ rw (reads, more) (found_recorded k d db)
  ]
  | inr (e, raises) ↦ rw raises (
      sym (ap (λ js. record db { jobs = js }) (update_where_same (has_id k) _ db.jobs (λ j. refl))))
]

-- Increments that a worker passes, none of them negative.
abbrev pub given : JobMetrics → MetricDeltas
given d = record {
  pages_fetched = pos d.pages_fetched;
  documents_saved = pos d.documents_saved;
  notices_upserted = pos d.notices_upserted;
  deduplicated_count = pos d.deduplicated_count;
  error_count = pos d.error_count;
  list_items_seen = pos d.list_items_seen;
  list_items_unique = pos d.list_items_unique;
  list_items_source_duplicates_skipped = pos d.list_items_source_duplicates_skipped;
  detail_pages_fetched = pos d.detail_pages_fetched;
  records_inserted = pos d.records_inserted;
  records_updated = pos d.records_updated;
  source_duplicates_suppressed = pos d.source_duplicates_suppressed;
}

-- Whatever the tables, counts that are not negative are added, each to its own counter, to the job
-- of that id, and nothing else of it changes.
pub record_stats_adds :
    (k : ℕ) (d : JobMetrics) (db : Database) (j : CrawlJob)
    → get_job k db ≡ some j
    → get_job k (record_stats k (given d) db).1
      ≡ some (record j { metrics = add_metrics j.metrics d })
unfolding normalize_deltas normalize_non_negative_delta
record_stats_adds k d db j found =
    let at_k = id-get job_id k db.jobs j found in
    let hit : (if has_id k j then stats_row d j else j) ≡ stats_row d j = ground arith in
    ap (get_job k) (recorded k (given d) db)
    ∙ get-update_where job_id (has_id k) (stats_row d) (λ x. refl) k db.jobs
    ∙ ap (Option.map (λ x. if has_id k x then stats_row d x else x)) found
    ∙ ap some hit

stats_swap :
    (r s : Result JobMetrics) (j : CrawlJob)
    → stats_change s (stats_change r j) ≡ stats_change r (stats_change s j)
stats_swap (ok a) (ok b) j = ap (λ m. record j { metrics = m }) (add_swap j.metrics a b)
stats_swap (ok a) (err e) j = refl
stats_swap (err e) (ok b) j = refl
stats_swap (err e) (err f) j = refl

stats_change-id : (r : Result JobMetrics) (j : CrawlJob) → (stats_change r j).id ≡ j.id
stats_change-id (ok d) j = refl
stats_change-id (err e) j = refl

-- Two UPDATEs by id commute if what they do to a row commutes and keeps its id.
update_swap :
    (k l : ℕ) (f g : CrawlJob → CrawlJob)
    → ((j : CrawlJob) → (f j).id ≡ j.id)
    → ((j : CrawlJob) → (g j).id ≡ j.id)
    → ((j : CrawlJob) → g (f j) ≡ f (g j))
    → (xs : List CrawlJob)
    → Table.update_where (has_id l) g (Table.update_where (has_id k) f xs)
      ≡ Table.update_where (has_id k) f (Table.update_where (has_id l) g xs)
unfolding Table.update_where
update_swap k l f g fid gid swap [] = refl
update_swap k l f g fid gid swap (x ∷ xs) =
    ground (arith, fid x, gid x, swap x, update_swap k l f g fid gid swap xs)

-- Workers may report in any order: two calls of `record_stats`, for the same job or for two, with
-- increments that may be negative, leave the same tables whichever comes first.
pub record_stats_swap :
    (k l : ℕ) (a b : MetricDeltas) (db : Database)
    → (record_stats l b (record_stats k a db).1).1 ≡ (record_stats k a (record_stats l b db).1).1
record_stats_swap k l a b db =
    let r = normalize_deltas a in
    let s = normalize_deltas b in
    recorded l b (record_stats k a db).1
    ∙ ap (update_jobs (has_id l) (stats_change s)) (recorded k a db)
    ∙ ap (λ js. record db { jobs = js })
        (update_swap k l (stats_change r) (stats_change s) (stats_change-id r) (stats_change-id s)
          (stats_swap r s) db.jobs)
    ∙ sym (
        recorded k a (record_stats l b db).1
        ∙ ap (update_jobs (has_id k) (stats_change r)) (recorded l b db))
