-- ===== src/Jobs/Rules.antt =====
-- The tables and the argument checks of app/services/crawl_job_service.py.
use tender_phase.Prelude.{
  ℕ, ◌+◌, String, Bool, true, false, ◌||◌, Option, none, some, List, [], ◌∷◌, str_eq, ltb,
  if◌then◌else◌, or_option,
}
use tender_phase.Prelude.Integers.{ℤ, pos, negsuc}
use tender_phase.Prelude.Text.{as_str}
use tender_phase.Clock.{Time, seconds}
use tender_phase.Payloads.{Payload}
use tender_phase.Model.{
  JobStatus, pending, running, succeeded, failed, partial, JobType, scheduled, manual, backfill,
  manual_retry, CrawlJob,
}
use tender_phase.Session.{
  job_type_required, unsupported_job_type, status_required, unsupported_status, invalid_transition,
  lease_seconds_too_small, negative_delta, Result, ok, err,
}

abbrev pub default_pending_lease_seconds : ℤ
default_pending_lease_seconds = pos 120

abbrev pub default_running_lease_seconds : ℤ
default_running_lease_seconds = pos 1800

abbrev pub same_status : JobStatus → JobStatus → Bool
same_status pending pending = true
same_status running running = true
same_status succeeded succeeded = true
same_status failed failed = true
same_status partial partial = true
same_status _ _ = false

abbrev pub contains_status : JobStatus → List JobStatus → Bool
contains_status s [] = false
contains_status s (t ∷ ts) = same_status s t || contains_status s ts

-- Every status that the column admits is a key, so the lookup always succeeds.
abbrev pub allowed_transitions : JobStatus → List JobStatus
allowed_transitions pending = running ∷ failed ∷ []
allowed_transitions running = succeeded ∷ failed ∷ partial ∷ []
allowed_transitions succeeded = succeeded ∷ []
allowed_transitions failed = failed ∷ []
allowed_transitions partial = partial ∷ []

unfoldable pub ensure_transition : JobStatus → JobStatus → Result (Unit {0})
ensure_transition current next =
    if contains_status next (allowed_transitions current)
    then ok tt
    else err (invalid_transition current next)

read_job_type : String → Result JobType
read_job_type s =
    if str_eq s "manual"
    then ok manual
    else if str_eq s "scheduled"
    then ok scheduled
    else if str_eq s "backfill"
    then ok backfill
    else if str_eq s "manual_retry"
    then ok manual_retry
    else err (unsupported_job_type s)

unfoldable pub normalize_job_type : String → Result JobType
unfolding read_job_type
normalize_job_type value = elim (as_str (some value)) [
  | none ↦ err job_type_required
  | some s ↦ read_job_type s
]

read_status : String → Result JobStatus
read_status s =
    if str_eq s "pending"
    then ok pending
    else if str_eq s "running"
    then ok running
    else if str_eq s "succeeded"
    then ok succeeded
    else if str_eq s "failed"
    then ok failed
    else if str_eq s "partial"
    then ok partial
    else err (unsupported_status s)

unfoldable pub normalize_status : String → Result JobStatus
unfolding read_status
normalize_status value = elim (as_str (some value)) [
  | none ↦ err status_required
  | some s ↦ read_status s
]

unfoldable pub calculate_lease_expires_at : Time → ℤ → Result Time
calculate_lease_expires_at moment (negsuc n) = err lease_seconds_too_small
calculate_lease_expires_at moment (pos n) =
    if ltb n 1 then err lease_seconds_too_small else ok (moment + seconds n)

unfoldable pub normalize_non_negative_delta : ℤ → String → Result ℕ
normalize_non_negative_delta (pos n) field_name = ok n
normalize_non_negative_delta (negsuc n) field_name = err (negative_delta field_name)

-- `_resolve_timeout_at`, and `func.coalesce(CrawlJob.timeout_at, CrawlJob.lease_expires_at)`
abbrev pub resolve_timeout_at : CrawlJob → Option Time
resolve_timeout_at job = or_option job.timeout_at job.lease_expires_at

-- An argument that keeps a column unless it is given (`_UNSET` in the source).
pub data Setting (A : Type 0) : Type 0 where
  unset : Setting A
  set_to : Option A → Setting A

-- `_copy_json_payload` under `is not _UNSET`
abbrev pub set_payload : Setting Payload → Option Payload → Option Payload
set_payload unset old = old
set_payload (set_to v) old = v

-- `_as_str(value)` under `is not _UNSET`
abbrev pub set_text : Setting String → Option String → Option String
set_text unset old = old
set_text (set_to v) old = as_str v

-- A message replaces the old one only if it has a text.
abbrev pub set_message : Option String → Option String → Option String
set_message message old = or_option (as_str message) old
