-- ===== src/Health/Keeping.antt =====
-- `update_rules` and `get_rules`: what is stored, and what is read back.
use tender_phase.Prelude.{
  ℕ, String, Bool, true, false, not, ◌&&◌, Option, none, some, List, [], ◌∷◌, ◌≡◌, refl, sym, ap,
  ◌∙◌, arith, first, is_some, All, leb, if◌then◌else◌, ◌==◌, Option-cases, Bool-cases, inl, inr,
  ==_iff,
}
use tender_phase.Prelude.Integers.{ℤ, pos, less}
use tender_phase.Prelude.Outcome.{Outcome, returns, raises, ◌>>=◌}
use tender_phase.Table
use tender_phase.Table.Laws.{All-update_where, All-insert}
use tender_phase.Health.Rules.{
  HealthRules, HealthRuleConfig, RuleError, RuleValue, default_config, lower_config, validate_rules,
  config_or_default, ensure_config, get_rules, set_rules, write_rules, store_rules, update_rules,
}

-- The CHECK constraints of the table.
abbrev pub are_ordered : ℤ → ℤ → Bool
are_ordered warning critical =
    not (less warning (pos 0)) && not (less critical (pos 0)) && not (less critical warning)

abbrev pub admits : HealthRules → Bool
admits r =
    are_ordered r.recent_error_warning_threshold r.recent_error_critical_threshold
    && are_ordered r.consecutive_failure_warning_threshold r.consecutive_failure_critical_threshold

abbrev pub IsAdmitted : HealthRuleConfig → Type 0
IsAdmitted c = admits c.rules ≡ true

-- An outcome that the table takes, if there is one.
abbrev takes : Outcome RuleError HealthRules → Bool
takes (returns r) = admits r
takes (raises e) = true

validate-takes : (r : HealthRules) → takes (validate_rules r) ≡ true
unfolding validate_rules
validate-takes r = ground arith

checked-takes : (o : Outcome RuleError HealthRules) → takes (o >>= validate_rules) ≡ true
checked-takes (returns r) = validate-takes r
checked-takes (raises e) = refl

store-IsAdmitted :
    (k : ℕ) (o : Outcome RuleError HealthRules) (table : List HealthRuleConfig)
    → takes o ≡ true
    → All IsAdmitted table
    → All IsAdmitted (store_rules k table o).1
store-IsAdmitted k (returns r) table h all =
    All-update_where IsAdmitted (λ c. c.id == k) (λ c. record c { rules = r }) (λ c old hit. h)
      table all
store-IsAdmitted k (raises e) table h all = all

config_or_default-IsAdmitted :
    (o : Option HealthRuleConfig) (table : List HealthRuleConfig)
    → All IsAdmitted table
    → All IsAdmitted (config_or_default o table).1
unfolding config_or_default less
config_or_default-IsAdmitted (some c) table all = all
config_or_default-IsAdmitted none table all = All-insert IsAdmitted default_config table refl all

-- Every stored row keeps to the CHECK constraints of the table, whatever the values of the updates
-- are: no threshold is negative and no warning threshold is above its critical threshold.
pub update_rules-IsAdmitted :
    (updates : List (String × RuleValue)) (table : List HealthRuleConfig)
    → All IsAdmitted table
    → All IsAdmitted (update_rules updates table).1
unfolding update_rules ensure_config
update_rules-IsAdmitted updates table all =
    store-IsAdmitted _ (set_rules updates _ >>= validate_rules) _
      (checked-takes (set_rules updates _))
      (config_or_default-IsAdmitted (first (Table.order_by lower_config table)) table all)

module _ (k : ℕ) (r : HealthRules) where
  abbrev change : HealthRuleConfig → HealthRuleConfig
  change c = if c.id == k then record c { rules = r } else c

  change-id : (c : HealthRuleConfig) → (change c).id ≡ c.id
  change-id c = elim (Bool-cases (c.id == k)) [ inl hit ↦ rw hit | inr miss ↦ rw miss ]

  write-insert_ordered :
      (c : HealthRuleConfig) (xs : List HealthRuleConfig)
      → Table.insert_ordered lower_config (change c) (write_rules k r xs)
        ≡ write_rules k r (Table.insert_ordered lower_config c xs)
  unfolding Table.insert_ordered Table.update_where
  write-insert_ordered c [] = refl
  write-insert_ordered c (x ∷ xs) = elim (Bool-cases (leb c.id x.id)) [
    | inl before ↦
        let same : lower_config (change c) (change x) ≡ true =
          rw (change-id c, change-id x) before in
        rw (before, same)
    | inr after ↦
        let same : lower_config (change c) (change x) ≡ false =
          rw (change-id c, change-id x) after in
        rw (after, same, write-insert_ordered c xs)
  ]

  -- The order of the rows does not depend on their thresholds.
  write-order_by :
      (xs : List HealthRuleConfig)
      → Table.order_by lower_config (write_rules k r xs)
        ≡ write_rules k r (Table.order_by lower_config xs)
  unfolding Table.order_by Table.update_where
  write-order_by [] = refl
  write-order_by (x ∷ xs) =
      ap (Table.insert_ordered lower_config (change x)) (write-order_by xs)
      ∙ write-insert_ordered x (Table.order_by lower_config xs)

  first-write :
      (xs : List HealthRuleConfig) (c : HealthRuleConfig)
      → first xs ≡ some c
      → first (write_rules k r xs) ≡ some (change c)
  unfolding Table.update_where
  first-write [] c h = absurd (cc)
  first-write (x ∷ xs) c h = cc

stored_first :
    (r : HealthRules) (table : List HealthRuleConfig) (c : HealthRuleConfig)
    → first (Table.order_by lower_config table) ≡ some c
    → first (Table.order_by lower_config (write_rules c.id r table)) ≡ some (record c { rules = r })
stored_first r table c h =
    let hit : (c.id == c.id) ≡ true = (==_iff c.id c.id).1 refl in
    ap first (write-order_by c.id r table)
    ∙ first-write c.id r (Table.order_by lower_config table) c h
    ∙ (rw hit)

insert_ordered-some :
    (x : HealthRuleConfig) (ys : List HealthRuleConfig)
    → is_some (first (Table.insert_ordered lower_config x ys)) ≡ true
unfolding Table.insert_ordered
insert_ordered-some x [] = refl
insert_ordered-some x (y ∷ ys) = ground arith

order_by-none :
    (table : List HealthRuleConfig) → first (Table.order_by lower_config table) ≡ none → table ≡ []
unfolding Table.order_by
order_by-none [] h = refl
order_by-none (x ∷ xs) h =
    let there = insert_ordered-some x (Table.order_by lower_config xs) in absurd (cc)

default_first :
    (table : List HealthRuleConfig)
    → table ≡ []
    → first (Table.order_by lower_config (Table.insert default_config table)) ≡ some default_config
unfolding Table.order_by Table.insert_ordered Table.insert
default_first table h = rw h refl

-- After `_ensure_config` the row that it returns is the first.
ensured_first :
    (table : List HealthRuleConfig)
    → first (Table.order_by lower_config (ensure_config table).1) ≡ some (ensure_config table).0
unfolding ensure_config config_or_default
ensured_first table = elim (Option-cases (first (Table.order_by lower_config table))) [
  | inl empty ↦ rw empty (default_first table (order_by-none table empty))
  | inr (c, found) ↦ rw found found
]

get_rules-first :
    (table : List HealthRuleConfig) (c : HealthRuleConfig)
    → first (Table.order_by lower_config table) ≡ some c
    → get_rules table ≡ (c.rules, table)
unfolding get_rules ensure_config config_or_default
get_rules-first table c h = rw h refl

stored_result :
    (k : ℕ) (table : List HealthRuleConfig) (o : Outcome RuleError HealthRules)
    → (store_rules k table o).0 ≡ o
stored_result k table (returns r) = refl
stored_result k table (raises e) = refl

-- What the rules are after an update.
abbrev pub rules_after : HealthRules → Outcome RuleError HealthRules → HealthRules
rules_after old (returns r) = r
rules_after old (raises e) = old

read_stored :
    (table : List HealthRuleConfig) (c : HealthRuleConfig) (o : Outcome RuleError HealthRules)
    → first (Table.order_by lower_config table) ≡ some c
    → get_rules (store_rules c.id table o).1 ≡ (rules_after c.rules o, (store_rules c.id table o).1)
read_stored table c (returns r) h =
    get_rules-first (write_rules c.id r table) (record c { rules = r }) (stored_first r table c h)
read_stored table c (raises e) h = get_rules-first table c h

-- Reading after an update, whatever is in the table: if the update returned, `get_rules` gives the
-- rules that it returned; if it raised, it gives the rules that `get_rules` gave before. It adds no
-- row of its own then.
pub get_rules-update_rules :
    (updates : List (String × RuleValue)) (table : List HealthRuleConfig)
    → get_rules (update_rules updates table).1 ≡ (
      rules_after (get_rules table).0 (update_rules updates table).0,
      (update_rules updates table).1,
    )
unfolding update_rules get_rules
get_rules-update_rules updates table =
    let o = set_rules updates (ensure_config table).0.rules >>= validate_rules in
    read_stored (ensure_config table).1 (ensure_config table).0 o (ensured_first table)
    ∙ ap
        (λ x. (
          rules_after (ensure_config table).0.rules x,
          (store_rules (ensure_config table).0.id (ensure_config table).1 o).1,
        ))
        (sym (stored_result (ensure_config table).0.id (ensure_config table).1 o))
