-- ===== src/Session.antt =====
-- A database session. An operation inside a transaction returns its result with the changed
-- database, or raises: then the session is closed, which rolls its changes back, so that no
-- database is returned.
use tender_phase.Prelude.{ℕ, String, Bool, true, false, Option, none, some}
pub use tender_phase.Prelude.Outcome.{returns as ok, raises as err, ◌>>=◌}
use tender_phase.Prelude.Outcome.{Outcome}
use tender_phase.Model.{JobStatus, Database}

-- The unique constraints of `crawl_job`; an `IntegrityError` names the one that failed.
pub data Constraint : Type 0 where
  source_active retry_of_job_id : Constraint

-- The exceptions of the crawl job service. Those that only carry a text have no argument.
pub data Error : Type 0 where
  source_code_required : Error
  job_type_required : Error
  unsupported_job_type : String → Error
  status_required : Error
  unsupported_status : String → Error
  final_status_required : JobStatus → Error
  invalid_transition : JobStatus → JobStatus → Error
  lease_seconds_too_small : Error
  negative_delta : String → Error
  retry_of_job_not_found : ℕ → Error
  integrity : Constraint → Error

abbrev pub Result {ℓ} : Type ℓ → Type ℓ
Result A = Outcome Error A

-- `if test: raise error`
abbrev pub raise_if : Bool → Error → Result (Unit {0})
raise_if true e = err e
raise_if false e = ok tt

-- The next statement after a check.
infixl 5 ◌>>◌
abbrev pub ◌>>◌ {ℓ} : {A : Type ℓ} → Result (Unit {0}) → Result A → Result A
check >> next = check >>= λ _. next

-- What a transaction that began at `db` leaves committed: its changes if it returned a row, and
-- the old state if it raised or returned `None` without a commit.
abbrev pub commit_some {ℓ κ} :
    {A : Type ℓ} {B : Type κ}
    → (A → B)
    → Result (Option A × Database)
    → Database
    → Result (Option B) × Database
commit_some view (ok (some a, db')) db = (ok (some (view a)), db')
commit_some view (ok (none, db')) db = (ok none, db)
commit_some view (err e) db = (err e, db)
