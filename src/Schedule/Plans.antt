-- ===== src/Schedule/Plans.antt =====
-- What synchronising a source leaves in the scheduler and in its row.
use tender_phase.Prelude.{
  true, false, Option, none, some, ◌≡◌, refl, sym, ap, ◌∙◌, if◌then◌else◌, Option-cases, Bool-cases,
  inl, inr, ==_iff,
}
use tender_phase.Clock.{Time, days}
use tender_phase.Model.{SourceSite}
use tender_phase.Schedule.Runtime.{
  ScheduledJob, Scheduler, IsScheduler, schedule_job_id, should_schedule, job_matches_source,
  fitting, planned_job, plan_source, calculate_next_scheduled_run, is_day_option,
  resolve_next_run_time,
}

-- A source that is not to be scheduled has no job and no next run; one that is has a job with its
-- interval, and its next run is the job's.
pub data IsPlanned (source : SourceSite) (found : Option ScheduledJob) (t : Option Time)
    : Type 0 where
  unplanned : should_schedule source ≡ false → found ≡ none → t ≡ none → IsPlanned source found t
  planned :
      should_schedule source ≡ true
      → (j : ScheduledJob) → found ≡ some j
      → j.interval ≡ days source.schedule_days
      → t ≡ j.next_run_time
      → IsPlanned source found t

fitting_lem :
    (source : SourceSite) (found : Option ScheduledJob) (j : ScheduledJob)
    → fitting source found ≡ some j
    → (found ≡ some j) × (j.interval ≡ days source.schedule_days)
fitting_lem source none j h = absurd (cc)
fitting_lem source (some k) j h =
    let chosen : (if job_matches_source k source then some k else none) ≡ some j = h in
    elim (Bool-cases (job_matches_source k source)) [
      | inl fits ↦
          let same : some k ≡ some j = cc in
          let alike : k ≡ j = cc in
          (
            same,
            sym (ap (λ x. x.interval) alike)
                ∙ (==_iff k.interval (days source.schedule_days)).0 fits,
          )
      | inr differs ↦ absurd (cc)
    ]

module _ {S : Type 0} (c : Scheduler S) (lawful : IsScheduler c) where
  -- With a scheduler that keeps the job it is given and forgets the one it is told to remove:
  -- after the plan of `_sync_source_in_session` a source that is not to be scheduled has neither a job nor a
  -- next run, and one that is has a job whose interval is its number of days, and the next run
  -- returned for its row is the one of that job.
  pub plan_source-IsPlanned :
      (now : Time) (source : SourceSite) (s : S)
      → IsPlanned source
          (c.get_job (schedule_job_id source.code) (plan_source c now source s).0)
          (plan_source c now source s).1
  unfolding plan_source
  plan_source-IsPlanned now source s = elim (Bool-cases (should_schedule source)) [
    | inr off ↦ rw (off) (unplanned off (lawful.get-remove (schedule_job_id source.code) s) refl)
    | inl on ↦ elim (Option-cases (fitting source (c.get_job (schedule_job_id source.code) s))) [
      | inl none_fits ↦
          rw (on, none_fits, lawful.get-add (planned_job c source now) s)
            (planned on (planned_job c source now) refl refl refl)
      | inr (j, fits) ↦
          let (found, alike) =
            fitting_lem source (c.get_job (schedule_job_id source.code) s) j fits in
          rw (on, fits) (planned on j found alike refl)
    ]
  ]

  settled :
      (later : Time) (source : SourceSite) (t : Option Time) (s : S)
      → should_schedule source ≡ true
      → IsPlanned source (c.get_job (schedule_job_id source.code) s) t
      → plan_source c later (record source { next_scheduled_run_at = t }) s ≡ (s, t)
  unfolding plan_source should_schedule
  settled later source t s on (unplanned off missing none_next) = absurd (cc)
  settled later source t s on (planned still j found alike same) =
      rw (on, found, (==_iff j.interval (days source.schedule_days)).1 alike, same) refl

  -- With a scheduler that keeps the job it is given and forgets the one it is told to remove:
  -- to synchronise a scheduled source again, at any time, changes neither the jobs of the scheduler
  -- nor the next run.
  pub plan_source_again :
      (now later : Time) (source : SourceSite) (s : S)
      → should_schedule source ≡ true
      → plan_source c later
          (record source { next_scheduled_run_at = (plan_source c now source s).1 })
          (plan_source c now source s).0
        ≡ plan_source c now source s
  plan_source_again now later source s on =
      settled later source (plan_source c now source s).1 (plan_source c now source s).0 on
        (plan_source-IsPlanned now source s)

  -- With a scheduler that keeps the job it is given, a source that has no job yet and whose row has
  -- no next run gets the next run that `calculate_next_scheduled_run` gives for its settings.
  pub plan_source-calculated :
      (now : Time) (source : SourceSite) (s : S)
      → source.next_scheduled_run_at ≡ none
      → c.get_job (schedule_job_id source.code) s ≡ none
      → (plan_source c now source s).1
        ≡ calculate_next_scheduled_run source.schedule_enabled source.schedule_days source.is_active
            now
  unfolding plan_source should_schedule calculate_next_scheduled_run resolve_next_run_time
  plan_source-calculated now source s no_time no_job = elim (Bool-cases source.schedule_enabled) [
    | inl enabled ↦ elim (Bool-cases source.is_active) [
      | inl active ↦ elim (Bool-cases (is_day_option source.schedule_days)) [
        | inl day ↦
            rw (enabled, active, day, no_job, lawful.get-add (planned_job c source now) s, no_time)
              refl
        | inr other ↦ rw (enabled, active, other) refl
      ]
      | inr idle ↦ rw (enabled, idle) refl
    ]
    | inr disabled ↦ elim (Bool-cases source.is_active) [
      | inl active ↦ rw (disabled, active) refl
      | inr idle ↦ rw (disabled, idle) refl
    ]
  ]
