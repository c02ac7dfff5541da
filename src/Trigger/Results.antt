-- ===== src/Trigger/Results.antt =====
-- A worker's run that returns has finished its job.
use tender_phase.Prelude.{
  ℕ, String, Bool, true, false, not, Option, none, some, List, ◌≡◌, refl, ◌∙◌, arith, str_eq, ◌==◌,
  inl, inr, Bool-cases,
}
use tender_phase.Prelude.Integers.{ℤ, pos}
use tender_phase.Prelude.Outcome.{Outcome, returns, raises, ◌>>=◌}
use tender_phase.Clock.{Time}
use tender_phase.Model.{CrawlJob, SourceSite, Database, is_final, job_type_text}
use tender_phase.Session.{Error, Result, raise_if, commit_some, ◌>>◌}
use tender_phase.Jobs.Rules.{ensure_transition}
use tender_phase.Jobs.Lifecycle.{get_job, Details}
use tender_phase.Jobs.Finish.{target_status, finish_found, finish_job_in_session}
use tender_phase.Jobs.Service.{CrawlJobSnapshot, snapshot, start_job, finish_job, get_job_snapshot}
use tender_phase.Jobs.History.{run_calls}
use tender_phase.Trigger.Checks.{Checked}
use tender_phase.Trigger.Arguments.{SpiderArgs, build_spider_args, build_spider_command}
use tender_phase.Trigger.Conflicts.{TriggerError, resolve_spider_name_for_source}
use tender_phase.Trigger.Running.{
  Run, Setup, TriggerResult, fail_run, finish_run, conclude, after_command, run_command,
  after_start, start_details, run_found, run_with_spider, run_existing_crawl_job, execute_with,
  execute_crawl_job,
}

-- A returned job has ended.
abbrev is_done : Result (Option CrawlJobSnapshot) → Bool
is_done (returns (some s)) = is_final s.status
is_done _ = true

abbrev pub leaves_done : Outcome TriggerError TriggerResult → Bool
leaves_done (returns r) = is_final r.job.status
leaves_done (raises e) = true

abbrev is_job_done : Result (Option CrawlJob × Database) → Bool
is_job_done (returns (some j, db)) = is_final j.status
is_job_done _ = true

commit-is_done :
    (r : Result (Option CrawlJob × Database)) (db : Database)
    → is_done (commit_some snapshot r db).0 ≡ is_job_done r
unfolding snapshot
commit-is_done (returns (some j, db')) db = refl
commit-is_done (returns (none, db')) db = refl
commit-is_done (raises e) db = refl

bind-is_job_done :
    {A : Type 0} (m : Result A) (f : A → Result (Option CrawlJob × Database))
    → ((a : A) → is_job_done (f a) ≡ true)
    → is_job_done (m >>= f) ≡ true
bind-is_job_done (returns a) f h = h a
bind-is_job_done (raises e) f h = refl

raise_if-is_job_done :
    (b : Bool) (e : Error) (r : Result (Option CrawlJob × Database))
    → (b ≡ false → is_job_done r ≡ true)
    → is_job_done (raise_if b e >> r) ≡ true
raise_if-is_job_done true e r h = refl
raise_if-is_job_done false e r h = h refl

final_of : (b : Bool) → not b ≡ false → b ≡ true
final_of b h = ground arith

found-is_done :
    (k : ℕ) (status : Option String) (now : Time) (d : Details) (db : Database)
    (o : Option CrawlJob)
    → is_done (commit_some snapshot (finish_found k status now d db o) db).0 ≡ true
unfolding finish_found
found-is_done k status now d db none = refl
found-is_done k status now d db (some job) =
    commit-is_done (finish_found k status now d db (some job)) db
    ∙ bind-is_job_done (target_status status job) _ (λ t.
      raise_if-is_job_done (not (is_final t)) _ _
        (λ h. bind-is_job_done (ensure_transition job.status t) _ (λ u. final_of (is_final t) h)))

finish_job-is_done :
    (k : ℕ) (status : Option String) (now : Time) (d : Details) (db : Database)
    → is_done (finish_job k status none now d db).0 ≡ true
unfolding finish_job finish_job_in_session
finish_job-is_done k status now d db = found-is_done k status now d db (get_job k db)

module _ (u : Setup) where
  finish_run-done :
      (command : List String) (n : ℤ) (o : Result (Option CrawlJobSnapshot)) (db : Database)
      → is_done o ≡ true
      → leaves_done (finish_run u command n (o, db)).0 ≡ true
  finish_run-done command n (raises e) db h = refl
  finish_run-done command n (returns none) db h = refl
  finish_run-done command n (returns (some s)) db h = h

  fail_run-done :
      (exc : String) (o : Result (Option CrawlJobSnapshot)) (db : Database)
      → leaves_done (fail_run u exc (o, db)).0 ≡ true
  fail_run-done exc (raises e) db = refl
  fail_run-done exc (returns none) db = refl
  fail_run-done exc (returns (some s)) db = refl

  conclude-done :
      (job : CrawlJobSnapshot) (command : List String) (n : ℤ) (db : Database)
      (o : Option CrawlJobSnapshot)
      → leaves_done (conclude u job command n db o).0 ≡ true
  unfolding conclude
  conclude-done job command n db none = refl
  conclude-done job command n db (some s) =
      finish_run-done command n _ _ (finish_job-is_done u.crawl_job_id _ u.run.finished_at _ db)

  after_command-done :
      (job : CrawlJobSnapshot) (command : List String) (o : Outcome String ℤ) (db : Database)
      → leaves_done (after_command u job command o db).0 ≡ true
  after_command-done job command (raises exc) db = fail_run-done exc _ _
  after_command-done job command (returns n) db =
      conclude-done job command n db (get_job_snapshot u.crawl_job_id db)

  run_command-done :
      (job : CrawlJobSnapshot) (o : Checked (List String)) (db : Database)
      → leaves_done (run_command u job o db).0 ≡ true
  run_command-done job (raises e) db = refl
  run_command-done job (returns command) db =
      after_command-done job command u.run.ended (run_calls u.run.meanwhile db)

  after_start-done :
      (old db : Database) (o : Result (Option CrawlJobSnapshot))
      → leaves_done (after_start u old (o, db)).0 ≡ true
  after_start-done old db (raises e) = refl
  after_start-done old db (returns none) = refl
  after_start-done old db (returns (some job)) =
      run_command-done job
        (build_spider_command u.run.python u.run.database_url u.spider_name u.crawl_job_id u.args)
        db

  run_found-done : (db : Database) (o : Option CrawlJob) → leaves_done (run_found u db o).0 ≡ true
  run_found-done db none = refl
  run_found-done db (some job) =
      let d = start_details u job in
      let r = start_job u.crawl_job_id none u.run.started_at (pos 1800) d db in
      let done = after_start-done db r.1 r.0 in
      elim (Bool-cases (job.source_site_id == u.source.id)) [
        | inr other ↦ rw other refl
        | inl same ↦ elim (Bool-cases (str_eq (job_type_text job.job_type) u.job_type)) [
          | inr other ↦ rw (same, other) refl
          | inl fits ↦ rw (same, fits) done
        ]
      ]

run_with_spider-done :
    (source : SourceSite) (k : ℕ) (job_type : String) (args : SpiderArgs) (run : Run)
    (db : Database) (o : Outcome TriggerError String)
    → leaves_done (run_with_spider source k job_type args run db o).0 ≡ true
run_with_spider-done source k job_type args run db (raises e) = refl
run_with_spider-done source k job_type args run db (returns name) =
    run_found-done _ db (get_job k db)

execute_with-done :
    (source : SourceSite) (k : ℕ) (job_type : String) (o : Checked SpiderArgs) (run : Run)
    (db : Database)
    → leaves_done (execute_with source k job_type o run db).0 ≡ true
unfolding run_existing_crawl_job
execute_with-done source k job_type (raises e) run db = refl
execute_with-done source k job_type (returns args) run db =
    run_with_spider-done source k job_type args run db
      (resolve_spider_name_for_source source.code job_type)

-- A run that returns a result returns it with a job that has ended: with a status that is final,
-- whatever the spider and others did meanwhile.
pub execute_crawl_job-done :
    (source : SourceSite) (k : ℕ) (job_type : String) (max_pages backfill_year : Option ℤ)
    (run : Run) (db : Database)
    → leaves_done (execute_crawl_job source k job_type max_pages backfill_year run db).0 ≡ true
unfolding execute_crawl_job
execute_crawl_job-done source k job_type max_pages backfill_year run db =
    execute_with-done source k job_type (build_spider_args max_pages backfill_year job_type) run db
