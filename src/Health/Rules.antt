-- ===== src/Health/Rules.antt =====
-- app/services/health_rule_service.py and app/models/health_rule_config.py: the thresholds.
use tender_phase.Prelude.{
  ℕ, String, Bool, true, false, not, ◌&&◌, Option, none, some, List, [], ◌∷◌, str_eq, leb, ◌==◌,
  first, if◌then◌else◌,
}
use tender_phase.Prelude.Integers.{ℤ, pos, negsuc, less}
use tender_phase.Prelude.Text.{strip}
use tender_phase.Prelude.Decimal.{parse_int}
use tender_phase.Prelude.Outcome.{Outcome, returns, raises, ◌>>=◌}
use tender_phase.Model.{JobStatus, succeeded, failed, partial}
use tender_phase.Table

-- `HealthRuleSnapshot`, and the columns of the configuration row
pub record HealthRules : Type 0 where
  pub recent_error_warning_threshold : ℤ
  pub recent_error_critical_threshold : ℤ
  pub consecutive_failure_warning_threshold : ℤ
  pub consecutive_failure_critical_threshold : ℤ
  pub partial_warning_enabled : Bool

pub record HealthRuleConfig : Type 0 where
  pub id : ℕ
  pub rules : HealthRules

abbrev pub default_health_rules : HealthRules
default_health_rules = record {
  recent_error_warning_threshold = pos 3;
  recent_error_critical_threshold = pos 6;
  consecutive_failure_warning_threshold = pos 1;
  consecutive_failure_critical_threshold = pos 1;
  partial_warning_enabled = true;
}

pub data RuleError : Type 0 where
  not_an_integer : RuleError
  wrong_type : RuleError
  negative_threshold : String → RuleError
  warning_above_critical : String → RuleError

-- A value of an update. Of a float there is the integer that it is cut to (none for an infinity or
-- a NaN) and whether it is true; of a value of another type only whether it is true.
pub data RuleValue : Type 0 where
  bool : Bool → RuleValue
  int : ℤ → RuleValue
  float : Option ℤ → Bool → RuleValue
  text : String → RuleValue
  other : Bool → RuleValue

-- `bool(value)`
unfoldable pub truth : RuleValue → Bool
truth (bool b) = b
truth (int (pos n)) = not (n == 0)
truth (int (negsuc n)) = true
truth (float cut b) = b
truth (text s) = not (str_eq s "")
truth (other b) = b

abbrev pub read_number : Option ℤ → Outcome RuleError ℤ
read_number none = raises not_an_integer
read_number (some n) = returns n

-- `_coerce_int_value`
unfoldable pub coerce_int_value : RuleValue → Outcome RuleError ℤ
coerce_int_value (bool true) = returns (pos 1)
coerce_int_value (bool false) = returns (pos 0)
coerce_int_value (int n) = returns n
coerce_int_value (float cut b) = read_number cut
coerce_int_value (text s) = read_number (parse_int (strip s))
coerce_int_value (other b) = raises wrong_type

-- One round of the loop in `update_rules`; an unknown key is passed over.
unfoldable pub set_rule : String → RuleValue → HealthRules → Outcome RuleError HealthRules
set_rule key value r =
    let number = coerce_int_value value in
    if str_eq key "partial_warning_enabled"
    then returns (record r { partial_warning_enabled = truth value })
    else if str_eq key "recent_error_warning_threshold"
    then (number >>= λ n. returns (record r { recent_error_warning_threshold = n }))
    else if str_eq key "recent_error_critical_threshold"
    then (number >>= λ n. returns (record r { recent_error_critical_threshold = n }))
    else if str_eq key "consecutive_failure_warning_threshold"
    then (number >>= λ n. returns (record r { consecutive_failure_warning_threshold = n }))
    else if str_eq key "consecutive_failure_critical_threshold"
    then (number >>= λ n. returns (record r { consecutive_failure_critical_threshold = n }))
    else returns r

unfoldable pub set_rules : List (String × RuleValue) → HealthRules → Outcome RuleError HealthRules
set_rules [] r = returns r
set_rules ((key, value) ∷ updates) r = set_rule key value r >>= set_rules updates

unfoldable pub validate_rules : HealthRules → Outcome RuleError HealthRules
validate_rules r =
    if less r.recent_error_warning_threshold (pos 0)
    then raises (negative_threshold "recent_error_warning_threshold")
    else if less r.recent_error_critical_threshold (pos 0)
    then raises (negative_threshold "recent_error_critical_threshold")
    else if less r.consecutive_failure_warning_threshold (pos 0)
    then raises (negative_threshold "consecutive_failure_warning_threshold")
    else if less r.consecutive_failure_critical_threshold (pos 0)
    then raises (negative_threshold "consecutive_failure_critical_threshold")
    else if less r.recent_error_critical_threshold r.recent_error_warning_threshold
    then raises (warning_above_critical "recent_error_warning_threshold")
    else if less r.consecutive_failure_critical_threshold r.consecutive_failure_warning_threshold
    then raises (warning_above_critical "consecutive_failure_warning_threshold")
    else returns r

abbrev pub config_id : HealthRuleConfig → ℕ
config_id c = c.id

abbrev pub lower_config : HealthRuleConfig → HealthRuleConfig → Bool
lower_config a b = leb a.id b.id

abbrev pub default_config : HealthRuleConfig
default_config = record { id = 1; rules = default_health_rules }

unfoldable pub config_or_default :
    Option HealthRuleConfig → List HealthRuleConfig → HealthRuleConfig × List HealthRuleConfig
config_or_default (some c) table = (c, table)
config_or_default none table = (default_config, Table.insert default_config table)

-- `_ensure_config`, which commits the row that it adds
unfoldable pub ensure_config : List HealthRuleConfig → HealthRuleConfig × List HealthRuleConfig
ensure_config table = config_or_default (first (Table.order_by lower_config table)) table

unfoldable pub get_rules : List HealthRuleConfig → HealthRules × List HealthRuleConfig
get_rules table = let (c, table') = ensure_config table in (c.rules, table')

abbrev pub write_rules : ℕ → HealthRules → List HealthRuleConfig → List HealthRuleConfig
write_rules k r = Table.update_where (λ c. c.id == k) (λ c. record c { rules = r })

abbrev pub store_rules :
    ℕ
    → List HealthRuleConfig
    → Outcome RuleError HealthRules
    → Outcome RuleError HealthRules × List HealthRuleConfig
store_rules k table (returns r) = (returns r, write_rules k r table)
store_rules k table (raises e) = (raises e, table)

-- The result, and the table that the call leaves.
unfoldable pub update_rules :
    List (String × RuleValue)
    → List HealthRuleConfig
    → Outcome RuleError HealthRules × List HealthRuleConfig
update_rules updates table =
    let (c, table') = ensure_config table in
    store_rules c.id table' (set_rules updates c.rules >>= validate_rules)

pub data HealthStatus : Type 0 where
  normal warning critical : HealthStatus

-- `count >= threshold`
abbrev pub reaches : ℕ → ℤ → Bool
reaches count threshold = not (less (pos count) threshold)

abbrev pub latest_is : JobStatus → Option JobStatus → Bool
latest_is s none = false
latest_is failed (some failed) = true
latest_is partial (some partial) = true
latest_is succeeded (some succeeded) = true
latest_is _ (some _) = false

unfoldable pub evaluate_health_status :
    (rules : HealthRules) (latest_status : Option JobStatus)
    (recent_7d_error_count consecutive_failure_count : ℕ)
    → HealthStatus
evaluate_health_status rules latest_status errors failures =
    if reaches errors rules.recent_error_critical_threshold
    then critical
    else if reaches failures rules.consecutive_failure_critical_threshold
    then critical
    else if latest_is failed latest_status && leb 1 failures
    then (if not (less (pos 1) rules.consecutive_failure_critical_threshold)
        then critical
        else warning)
    else if reaches errors rules.recent_error_warning_threshold
    then warning
    else if reaches failures rules.consecutive_failure_warning_threshold
    then warning
    else if latest_is partial latest_status
    then (if rules.partial_warning_enabled then warning else normal)
    else if latest_is succeeded latest_status
    then normal
    else warning
