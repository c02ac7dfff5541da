-- ===== src/Schedule/Tests.antt =====
-- A scheduler that is a map, and a source that runs every three days.
use tender_phase.Prelude.{
  String, true, Option, none, some, [], ◌≡◌, refl, str_eq, if◌then◌else◌, eq_iff,
}
use tender_phase.Clock.{seconds}
use tender_phase.Model.{SourceSite}
use tender_phase.Jobs.Samples.{site}
use tender_phase.Schedule.Runtime.{
  ScheduledJob, Scheduler, IsScheduler, schedule_job_id, plan_source, should_schedule,
}
use tender_phase.Schedule.Plans.{IsPlanned, plan_source-IsPlanned}

abbrev Jobs : Type 0
Jobs = String → Option ScheduledJob

abbrev board : Scheduler Jobs
board = record {
  get_job = λ id s. s id;
  add_job = λ j s x. if str_eq x j.id then some j else s x;
  remove_job = λ id s x. if str_eq x id then none else s x;
  job_ids = λ s. [];
}

board-IsScheduler : IsScheduler board
board-IsScheduler = record {
  get-add = λ j s. rw ((eq_iff j.id j.id).1 refl) refl;
  get-remove = λ id s. rw ((eq_iff id id).1 refl) refl;
}

abbrev no_jobs : Jobs
no_jobs id = none

abbrev every_three : SourceSite
every_three = record site { schedule_enabled = true; schedule_days = 3 }

is_scheduled : should_schedule every_three ≡ true
unfolding should_schedule
is_scheduled = refl

plan_source-IsPlanned_example :
    IsPlanned every_three
      (board.get_job
        (schedule_job_id every_three.code)
        (plan_source board (seconds 5) every_three no_jobs).0)
      (plan_source board (seconds 5) every_three no_jobs).1
plan_source-IsPlanned_example =
    plan_source-IsPlanned board board-IsScheduler (seconds 5) every_three no_jobs
