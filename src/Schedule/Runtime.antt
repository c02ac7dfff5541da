-- ===== src/Schedule/Runtime.antt =====
-- `SourceScheduleRuntime`. The scheduler is APScheduler's: its state and its operations are
-- parameters, with the part of its documentation that the program relies on.
use Prim.Native.String.{◌++◌}
use tender_phase.Prelude.{
  ℕ, ◌+◌, String, Bool, not, ◌&&◌, ◌||◌, Option, none, some, List, [], ◌∷◌, ◌≡◌, leb, ◌==◌, map,
  if◌then◌else◌,
}
use tender_phase.Prelude.Integers.{pos}
use tender_phase.Prelude.Search.{begins_with}
use tender_phase.Prelude.Outcome.{Outcome, returns, raises}
use tender_phase.Clock.{Time, days}
use tender_phase.Adapters.{is_one_of}
use tender_phase.Model.{SourceSite, Database, status_text}
use tender_phase.Table
use tender_phase.Jobs.Creation.{source_by_code}
use tender_phase.Trigger.Conflicts.{TriggerError, active_conflict}
use tender_phase.Trigger.Requests.{Moment}
use tender_phase.Trigger.Running.{Run, TriggerResult, Triggered}
use tender_phase.Trigger.Triggers.{trigger_scheduled_crawl}

-- A job of the scheduler: its trigger is an interval, and it runs next at some time, if it does.
pub record ScheduledJob : Type 0 where
  pub id : String
  pub interval : Time
  pub next_run_time : Option Time

-- `add_job` replaces a job of the same id; `remove_job` passes over an id that is not there, as the
-- program does with the lookup error.
pub record Scheduler (S : Type 0) : Type 0 where
  pub get_job : String → S → Option ScheduledJob
  pub add_job : ScheduledJob → S → S
  pub remove_job : String → S → S
  pub job_ids : S → List String

pub record IsScheduler {S : Type 0} (c : Scheduler S) : Type 0 where
  pub get-add : (j : ScheduledJob) (s : S) → c.get_job j.id (c.add_job j s) ≡ some j
  pub get-remove : (id : String) (s : S) → c.get_job id (c.remove_job id s) ≡ none

-- `SCHEDULE_DAY_OPTIONS`
abbrev pub is_day_option : ℕ → Bool
is_day_option n = n == 1 || n == 2 || n == 3 || n == 7

abbrev pub schedule_status_options : List String
schedule_status_options = "succeeded" ∷ "failed" ∷ "partial" ∷ "skipped" ∷ []

abbrev pub source_schedule_job_prefix : String
source_schedule_job_prefix = "source_schedule::"

-- `_job_id`
abbrev pub schedule_job_id : String → String
schedule_job_id source_code = source_schedule_job_prefix ++ source_code

unfoldable pub should_schedule : SourceSite → Bool
should_schedule s = s.is_active && s.schedule_enabled && is_day_option s.schedule_days

unfoldable pub calculate_next_scheduled_run :
    (schedule_enabled : Bool) (schedule_days : ℕ) (is_active : Bool) (now : Time) → Option Time
calculate_next_scheduled_run schedule_enabled schedule_days is_active now =
    if not schedule_enabled || not is_active || not (is_day_option schedule_days)
    then none
    else some (now + days schedule_days)

unfoldable pub resolve_next_run_time : Option Time → ℕ → Time → Time
resolve_next_run_time none n now = now + days n
resolve_next_run_time (some t) n now = if leb t now then now else t

-- `_job_matches_source`, for a job with an interval trigger
abbrev pub job_matches_source : ScheduledJob → SourceSite → Bool
job_matches_source j s = j.interval == days s.schedule_days

-- A job in place that fits the source.
abbrev pub fitting : SourceSite → Option ScheduledJob → Option ScheduledJob
fitting source none = none
fitting source (some j) = if job_matches_source j source then some j else none

abbrev pub set_next : ℕ → Option Time → Database → Database
set_next source_id t db = record db {
  sources =
      Table.update_where (λ s. s.id == source_id) (λ s. record s { next_scheduled_run_at = t })
        db.sources;
}

abbrev pub next_time : Option ScheduledJob → Time → Option Time
next_time none t = some t
next_time (some j) t = j.next_run_time

module _ {S : Type 0} (c : Scheduler S) where
  abbrev pub planned_job : SourceSite → Time → ScheduledJob
  planned_job source now = record {
    id = schedule_job_id source.code;
    interval = days source.schedule_days;
    next_run_time =
        some (resolve_next_run_time source.next_scheduled_run_at source.schedule_days now);
  }

  -- The jobs of the scheduler and the next run of the source, as `_sync_source_in_session` leaves
  -- them.
  unfoldable pub plan_source : Time → SourceSite → S → S × Option Time
  plan_source now source s =
      let id = schedule_job_id source.code in
      if not (should_schedule source)
      then (c.remove_job id s, none)
      else elim (fitting source (c.get_job id s)) [
        | some j ↦ (s, j.next_run_time)
        | none ↦
            let s' = c.add_job (planned_job source now) s in
            (
              s',
              next_time (c.get_job id s')
                  (resolve_next_run_time source.next_scheduled_run_at source.schedule_days now),
            )
      ]

  unfoldable pub sync_source_in_session : Time → SourceSite → S × Database → S × Database
  sync_source_in_session now source (s, db) =
      let (s', t) = plan_source now source s in (s', set_next source.id t db)

  abbrev pub sync_found : Time → String → Option SourceSite → S × Database → S × Database
  sync_found now source_code none (s, db) = (c.remove_job (schedule_job_id source_code) s, db)
  sync_found now source_code (some source) p = sync_source_in_session now source p

  unfoldable pub sync_source : Time → String → S × Database → S × Database
  sync_source now source_code (s, db) =
      sync_found now source_code (source_by_code source_code db.sources) (s, db)

  abbrev pub is_stale : List String → String → Bool
  is_stale active_job_ids id =
      begins_with id source_schedule_job_prefix && not (is_one_of id active_job_ids)

  -- The refresh job and the dispatch job do not have the prefix.
  unfoldable pub remove_stale : List String → List String → S → S
  remove_stale active_job_ids [] s = s
  remove_stale active_job_ids (id ∷ ids) s =
      remove_stale active_job_ids ids (if is_stale active_job_ids id then c.remove_job id s else s)

  unfoldable pub sync_all : Time → List SourceSite → S × Database → S × Database
  sync_all now [] p = p
  sync_all now (source ∷ sources) p = sync_all now sources (sync_source_in_session now source p)

  unfoldable pub restore_from_db : Time → S × Database → S × Database
  restore_from_db now (s, db) =
      let (s', db') = sync_all now db.sources (s, db) in
      let ids = map (λ source. schedule_job_id source.code) db.sources in
      (remove_stale ids (c.job_ids s') s', db')

  abbrev pub run_status : Outcome TriggerError TriggerResult → String
  run_status (returns r) = status_text r.job.status
  run_status (raises (active_conflict code id found)) = "skipped"
  run_status (raises e) = "failed"

  abbrev pub known_status : String → String
  known_status status = if is_one_of status schedule_status_options then status else "failed"

  abbrev pub planned_time : Option ScheduledJob → Option Time
  planned_time none = none
  planned_time (some j) = j.next_run_time

  abbrev pub change_source : ℕ → (SourceSite → SourceSite) → Database → Database
  change_source source_id change db = record db {
    sources = Table.update_where (λ x. x.id == source_id) change db.sources;
  }

  abbrev pub after_run : SourceSite → S → Triggered → Database
  after_run source s (outcome, db) =
      change_source source.id
        (λ x. record x {
          last_schedule_status = some (known_status (run_status outcome));
          next_scheduled_run_at = planned_time (c.get_job (schedule_job_id source.code) s);
        })
        db

  abbrev pub run_found : Moment → Run → String → Option SourceSite → S × Database → S × Database
  run_found at_time run source_code none (s, db) =
      (c.remove_job (schedule_job_id source_code) s, db)
  run_found at_time run source_code (some source) (s, db) =
      if not (should_schedule source)
      then (c.remove_job (schedule_job_id source_code) s, set_next source.id none db)
      else (
        s,
        after_run source s (
            trigger_scheduled_crawl at_time source (some (pos source.default_max_pages)) "scheduler"
              run
              (change_source source.id (λ x. record x { last_scheduled_run_at = some at_time.now })
                db)),
      )

  -- `_run_scheduled_source`: the start of the crawl is recorded before it, its status after it.
  unfoldable pub run_scheduled_source : Moment → Run → String → S × Database → S × Database
  run_scheduled_source at_time run source_code (s, db) =
      run_found at_time run source_code (source_by_code source_code db.sources) (s, db)
