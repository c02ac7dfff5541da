-- ===== src/Health/Tests.antt =====
-- Thresholds and levels at concrete values.
use tender_phase.Prelude.{String, true, List, [], ◌∷◌, ◌≡◌, refl, All}
use tender_phase.Prelude.Integers
use tender_phase.Prelude.Integers.{ℤ, pos, negsuc}
use tender_phase.Health.Rules.{
  HealthRuleConfig, RuleValue, bool, text, default_health_rules, get_rules, update_rules,
}
use tender_phase.Health.Keeping.{
  IsAdmitted, rules_after, update_rules-IsAdmitted, get_rules-update_rules,
}

abbrev new_values : List (String × RuleValue)
new_values =
    ("recent_error_warning_threshold", text " 4 ")
    ∷ ("partial_warning_enabled", text "false")
    ∷ ("no_such_rule", bool true)
    ∷ []

abbrev one_row : List HealthRuleConfig
one_row = record { id = 7; rules = default_health_rules } ∷ []

one_row-IsAdmitted : All IsAdmitted one_row
unfolding Integers.less
one_row-IsAdmitted = (refl, tt)

update_rules-IsAdmitted_example : All IsAdmitted (update_rules new_values one_row).1
update_rules-IsAdmitted_example = update_rules-IsAdmitted new_values one_row one_row-IsAdmitted

get_rules-update_rules_example :
    get_rules (update_rules new_values []).1
    ≡ (rules_after (get_rules []).0 (update_rules new_values []).0, (update_rules new_values []).1)
get_rules-update_rules_example = get_rules-update_rules new_values []
