-- ===== src/Health/Levels.antt =====
-- `evaluate_health_status`: when a source is critical, and what more errors do.
use tender_phase.Prelude.{ℕ, ◌≤◌, Bool, true, false, ◌||◌, Option, ◌≡◌, refl, arith, leb}
use tender_phase.Prelude.Integers.{ℤ, pos, negsuc, less}
use tender_phase.Model.{JobStatus}
use tender_phase.Health.Rules.{
  HealthRules, HealthStatus, normal, warning, critical, reaches, evaluate_health_status,
}

abbrev pub is_critical : HealthStatus → Bool
is_critical critical = true
is_critical _ = false

abbrev pub severity : HealthStatus → ℕ
severity normal = 0
severity warning = 1
severity critical = 2

reaches_one : (n : ℕ) (t : ℤ) → leb 1 n ≡ true → reaches n t ≡ false → less (pos 1) t ≡ true
unfolding less
reaches_one n (pos m) h k = ground arith
reaches_one n (negsuc m) h k = absurd (cc)

-- A source is critical exactly if its errors or its failures in a row reach their critical
-- threshold, whatever the status of its latest job.
pub evaluate_critical :
    (r : HealthRules) (latest : Option JobStatus) (errors failures : ℕ)
    → is_critical (evaluate_health_status r latest errors failures) ≡ (
        reaches errors r.recent_error_critical_threshold
        || reaches failures r.consecutive_failure_critical_threshold)
unfolding evaluate_health_status
evaluate_critical r latest errors failures =
    ground (arith, reaches_one failures r.consecutive_failure_critical_threshold)

more_reaches : (m n : ℕ) (t : ℤ) → m ≤ n → reaches m t ≡ true → reaches n t ≡ true
unfolding less
more_reaches m n (pos k) h r = ground arith
more_reaches m n (negsuc k) h r = refl

-- More errors or more failures in a row never make a source look healthier, its latest status
-- being the same.
pub evaluate_monotone :
    (r : HealthRules) (latest : Option JobStatus) (e e' f f' : ℕ)
    → e ≤ e'
    → f ≤ f'
    → severity (evaluate_health_status r latest e f)
      ≤ severity (evaluate_health_status r latest e' f')
unfolding evaluate_health_status
evaluate_monotone r latest e e' f f' he hf = ground (
  arith,
  more_reaches e e' r.recent_error_critical_threshold he,
  more_reaches e e' r.recent_error_warning_threshold he,
  more_reaches f f' r.consecutive_failure_critical_threshold hf,
  more_reaches f f' r.consecutive_failure_warning_threshold hf,
)
