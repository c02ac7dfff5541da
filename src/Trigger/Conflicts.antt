-- ===== src/Trigger/Conflicts.antt =====
-- `_create_crawl_job`: a job is created unless the source is busy.
use tender_phase.Prelude.{
  ℕ, String, Bool, true, false, not, ◌&&◌, Option, none, some, str_eq, leb, select, first,
  if◌then◌else◌,
}
use mathlib.Core.Option
use tender_phase.Prelude.Outcome.{Outcome, returns, raises}
use tender_phase.Clock.{Time}
use tender_phase.Adapters.{get_source_adapter, resolve_spider_name, supports_job_type}
use tender_phase.Model.{JobStatus, CrawlJob, SourceSite, Database}
use tender_phase.Table
use tender_phase.Session.{Error, integrity, Constraint, source_active, retry_of_job_id, Result}
use tender_phase.Jobs.Sweep.{reconcile_expired_jobs_in_session}
use tender_phase.Jobs.Creation.{JobRequest, active_on, is_retry_of, create_job_in_session}
use tender_phase.Jobs.Service.{CrawlJobSnapshot, get_job_snapshot}
use tender_phase.Trigger.Checks.{CheckError}

-- The exceptions of the service, and those that it lets through.
pub data TriggerError : Type 0 where
  not_integrated : TriggerError
  unsupported_mode : String → String → TriggerError
  no_spider : String → TriggerError
  active_conflict : String → ℕ → Option (ℕ × JobStatus) → TriggerError
  retry_conflict : ℕ → Option ℕ → TriggerError
  only_failed_or_partial : TriggerError
  retry_of_a_retry : TriggerError
  job_to_retry_not_found : TriggerError
  source_not_found : TriggerError
  job_not_found : ℕ → TriggerError
  source_mismatch : ℕ → TriggerError
  job_type_mismatch : ℕ → TriggerError
  start_conflict : ℕ → JobStatus → TriggerError
  runner_failed : String → TriggerError
  service : Error → TriggerError
  check : CheckError → TriggerError

abbrev pub checked {ℓ} : {A : Type ℓ} → Outcome CheckError A → Outcome TriggerError A
checked (returns a) = returns a
checked (raises e) = raises (check e)

-- `_resolve_spider_name_for_source`
unfoldable pub resolve_spider_name_for_source : String → String → Outcome TriggerError String
resolve_spider_name_for_source source_code job_type = elim (get_source_adapter source_code) [
  | none ↦ raises not_integrated
  | some adapter ↦
      if not (str_eq job_type "scheduled") && not (supports_job_type source_code job_type)
      then raises (unsupported_mode source_code job_type)
      else elim (resolve_spider_name source_code) [
        | none ↦ raises (no_spider source_code)
        | some name ↦ if str_eq name "" then raises (no_spider source_code) else returns name
      ]
]

abbrev pub newer : CrawlJob → CrawlJob → Bool
newer a b = leb b.id a.id

unfoldable pub load_active_job_for_source : ℕ → Database → Option CrawlJob
load_active_job_for_source site_id db =
    first (Table.order_by newer (select (active_on site_id) db.jobs))

unfoldable pub load_retry_job_for_original_job : ℕ → Database → Option CrawlJob
load_retry_job_for_original_job original db =
    first (Table.order_by newer (select (is_retry_of original) db.jobs))

-- `_build_source_active_job_conflict`
abbrev pub build_conflict : SourceSite → Option CrawlJob → TriggerError
build_conflict source job =
    active_conflict source.code source.id (Option.map (λ j. (j.id, j.status)) job)

abbrev pub build_retry_conflict : ℕ → Option CrawlJob → TriggerError
build_retry_conflict original job = retry_conflict original (Option.map (λ j. j.id) job)

abbrev pub is_retry_constraint : Constraint → Bool
is_retry_constraint retry_of_job_id = true
is_retry_constraint source_active = false

abbrev pub retry_error : ℕ → Constraint → Option CrawlJob → Option TriggerError
retry_error original failed_one (some job) = some (build_retry_conflict original (some job))
retry_error original failed_one none =
    if is_retry_constraint failed_one then some (build_retry_conflict original none) else none

-- `_resolve_retry_conflict_after_integrity_error`
unfoldable pub resolve_retry_conflict : Option ℕ → Constraint → Database → Option TriggerError
resolve_retry_conflict none failed_one db = none
resolve_retry_conflict (some original) failed_one db =
    retry_error original failed_one (load_retry_job_for_original_job original db)

abbrev pub integrity_error : SourceSite → Constraint → Database → Option TriggerError → TriggerError
integrity_error source failed_one db (some e) = e
integrity_error source source_active db none =
    build_conflict source (load_active_job_for_source source.id db)
integrity_error source retry_of_job_id db none = service (integrity retry_of_job_id)

-- What `create_job_in_session` raised, as the service raises it, after the rollback to `db`.
unfoldable pub creation_error : SourceSite → Option ℕ → Database → Error → TriggerError
creation_error source retry_of db (integrity failed_one) =
    integrity_error source failed_one db (resolve_retry_conflict retry_of failed_one db)
creation_error source retry_of db e = service e

abbrev pub read_back : ℕ → Option CrawlJobSnapshot → Outcome TriggerError CrawlJobSnapshot
read_back k none = raises (job_not_found k)
read_back k (some s) = returns s

-- The commit after the INSERT, or the rollback.
abbrev pub finish_creation :
    SourceSite
    → Option ℕ
    → Database
    → Result (CrawlJob × Database)
    → Outcome TriggerError CrawlJobSnapshot × Database
finish_creation source retry_of db (raises e) = (raises (creation_error source retry_of db e), db)
finish_creation source retry_of db (returns (job, db')) =
    (read_back job.id (get_job_snapshot job.id db'), db')

-- After the sweep, in the same transaction.
abbrev pub create_unless_active :
    SourceSite
    → JobRequest
    → (now created_at : Time) → (db swept : Database) → Option CrawlJob
    → Outcome TriggerError CrawlJobSnapshot × Database
create_unless_active source r now created_at db swept (some job) =
    (raises (build_conflict source (some job)), db)
create_unless_active source r now created_at db swept none =
    finish_creation source r.retry_of_job_id db (create_job_in_session r now created_at swept)

abbrev pub create_after_sweep :
    {A : Type 0}
    → SourceSite
    → JobRequest
    → (now created_at : Time) → Database
    → Result (A × Database)
    → Outcome TriggerError CrawlJobSnapshot × Database
create_after_sweep source r now created_at db (raises e) = (raises (service e), db)
create_after_sweep source r now created_at db (returns (expired, swept)) =
    create_unless_active source r now created_at db swept
      (load_active_job_for_source source.id swept)

abbrev pub create_with_spider :
    SourceSite
    → JobRequest
    → (now created_at : Time) → Database
    → Outcome TriggerError String
    → Outcome TriggerError CrawlJobSnapshot × Database
create_with_spider source r now created_at db (raises e) = (raises e, db)
create_with_spider source r now created_at db (returns spider) =
    create_after_sweep source r now created_at db
      (reconcile_expired_jobs_in_session none now none db)

-- `_create_crawl_job`; what it raises leaves the database as it was.
unfoldable pub create_crawl_job :
    SourceSite
    → JobRequest
    → (now created_at : Time) → Database
    → Outcome TriggerError CrawlJobSnapshot × Database
create_crawl_job source r now created_at db =
    create_with_spider source r now created_at db
      (resolve_spider_name_for_source source.code r.job_type)
