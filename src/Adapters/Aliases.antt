-- ===== src/Adapters/Aliases.antt =====
-- Source codes under their aliases.
use tender_phase.Prelude.{
  String, false, str_eq, ◌≡◌, refl, ◌⊎◌, inl, inr, Bool-cases, eq_iff, sym, ◌∙◌,
}
use tender_phase.Prelude.Text.{strip}
use tender_phase.Prelude.Text.Laws.{strip-strip}
use tender_phase.Adapters.{normalize_source_code}

-- A code that is stripped and is no alias is its own normal form.
normalize_not_alias :
    (s : String)
    → strip s ≡ s
    → str_eq "2" s ≡ false
    → str_eq "ggzy_gov_cn" s ≡ false
    → normalize_source_code s ≡ s
unfolding normalize_source_code
normalize_not_alias s h a b = elim (Bool-cases (str_eq s "")) [
  | inl blank ↦ rw (h, blank)
  | inr text ↦ rw (h, text, a, b)
]

normalize-strip : (s : String) → normalize_source_code (strip s) ≡ normalize_source_code s
unfolding normalize_source_code
normalize-strip s = rw (strip-strip s)

-- A stripped code is its own normal form, or an alias of the deal platform.
normalize-cases :
    (s : String)
    → (normalize_source_code s ≡ strip s) × (normalize_source_code (strip s) ≡ strip s)
      ⊎ (normalize_source_code s ≡ "ggzy_gov_cn_deal")
normalize-cases s = elim (Bool-cases (str_eq "2" (strip s))) [
  | inl two ↦ inr (unfold normalize_source_code in rw (sym ((eq_iff "2" (strip s)).0 two)))
  | inr a ↦ elim (Bool-cases (str_eq "ggzy_gov_cn" (strip s))) [
    | inl old ↦
        inr (unfold normalize_source_code in rw (sym ((eq_iff "ggzy_gov_cn" (strip s)).0 old)))
    | inr b ↦
        let e = normalize_not_alias (strip s) (strip-strip s) a b in
        inl (sym (normalize-strip s) ∙ e, e)
  ]
]

deal_fixed : normalize_source_code "ggzy_gov_cn_deal" ≡ "ggzy_gov_cn_deal"
unfolding normalize_source_code strip
deal_fixed = refl

-- Normalising a source code twice changes nothing more: no alias leads to another alias.
pub normalize_source_code-idempotent :
    (s : String) → normalize_source_code (normalize_source_code s) ≡ normalize_source_code s
normalize_source_code-idempotent s = elim (normalize-cases s) [
  | inl (e, f) ↦ rw (e, f)
  | inr deal ↦ rw deal deal_fixed
]
