-- ===== src/Jobs/Found.antt =====
-- `_ensure_source_site`: the row that its lookups find.
use tender_phase.Prelude.{
  Bool, true, false, not, String, Option, none, some, List, [], ◌∷◌, ◌≡◌, refl, if◌then◌else◌,
  count, arith, Option-cases, inl, inr, or_option, str_eq,
}
use tender_phase.Model.{SourceSite}
use tender_phase.Table.Order.{In}
use tender_phase.Table.Membership.{count-select-none, first_passes, In-lowest, In-selected}
use tender_phase.Jobs.Creation.{has_code, source_by_code, lower_id, legacy_deal_source, find_source}

pub source_by_code-none :
    (c : String) (xs : List SourceSite) → source_by_code c xs ≡ none → count (has_code c) xs ≡ 0
unfolding source_by_code
source_by_code-none c xs h = count-select-none (has_code c) xs h

-- A source that is found is one of the rows; and unless its code is the one asked for, no row has
-- that code.
pub record Found (code : String) (xs : List SourceSite) (s : SourceSite) : Type 0 where
  pub row : In s xs
  pub only : str_eq s.code code ≡ false → count (has_code code) xs ≡ 0

In-or_option :
    {xs : List SourceSite} (a b : Option SourceSite)
    → ((s : SourceSite) → a ≡ some s → In s xs)
    → ((s : SourceSite) → b ≡ some s → In s xs)
    → (s : SourceSite) → or_option a b ≡ some s
    → In s xs
In-or_option none b ha hb s h = hb s h
In-or_option (some a) b ha hb s h = ha s h

In-if_none :
    {xs : List SourceSite} (test : Bool) (o : Option SourceSite)
    → ((s : SourceSite) → o ≡ some s → In s xs)
    → (s : SourceSite) → (if test then o else none) ≡ some s
    → In s xs
In-if_none true o ho s h = ho s h
In-if_none false o ho s h = absurd (cc)

source_by_code-In :
    (c : String) (xs : List SourceSite) (s : SourceSite) → source_by_code c xs ≡ some s → In s xs
unfolding source_by_code
source_by_code-In c xs s h = In-selected (has_code c) xs s h

legacy_deal_source-In :
    (xs : List SourceSite) (s : SourceSite) → legacy_deal_source xs ≡ some s → In s xs
unfolding legacy_deal_source
legacy_deal_source-In xs = In-or_option _ _ (In-lowest lower_id _ xs) (In-lowest lower_id _ xs)

find_source-In :
    (raw code : String) (xs : List SourceSite) (s : SourceSite)
    → find_source raw code xs ≡ some s
    → In s xs
unfolding find_source
find_source-In raw code xs = In-or_option (source_by_code code xs) _ (source_by_code-In code xs) (
    In-or_option _ _
      (In-if_none (not (str_eq raw code)) (source_by_code raw xs) (source_by_code-In raw xs))
      (In-if_none (str_eq code "ggzy_gov_cn_deal") (legacy_deal_source xs)
        (legacy_deal_source-In xs)))

pub source_by_code-passes :
    (c : String) (xs : List SourceSite) (s : SourceSite)
    → source_by_code c xs ≡ some s
    → str_eq s.code c ≡ true
unfolding source_by_code
source_by_code-passes c xs s h = first_passes (has_code c) xs s h

pub source_by_code_absent :
    (c : String) (xs : List SourceSite) → count (has_code c) xs ≡ 0 → source_by_code c xs ≡ none
unfolding source_by_code
source_by_code_absent c [] h = refl
source_by_code_absent c (x ∷ xs) h = ground (arith, source_by_code_absent c xs)

first_found :
    (raw code : String) (xs : List SourceSite) (t s : SourceSite)
    → source_by_code code xs ≡ some t
    → find_source raw code xs ≡ some s
    → t ≡ s
unfolding find_source
first_found raw code xs t s e h = ground arith

pub find_source-Found :
    (raw code : String) (xs : List SourceSite) (s : SourceSite)
    → find_source raw code xs ≡ some s
    → Found code xs s
find_source-Found raw code xs s h = record {
  row = find_source-In raw code xs s h;
  only = λ other. elim (Option-cases (source_by_code code xs)) [
    | inl absent ↦ source_by_code-none code xs absent
    | inr (t, e) ↦
        let same : t ≡ s = first_found raw code xs t s e h in
        let passes = source_by_code-passes code xs t e in absurd (cc)
  ];
}

pub find_source-none :
    (raw code : String) (xs : List SourceSite)
    → find_source raw code xs ≡ none
    → count (has_code code) xs ≡ 0
unfolding find_source
find_source-none raw code xs h = source_by_code-none code xs (ground arith)
