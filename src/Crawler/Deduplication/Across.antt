-- ===== src/Crawler/Deduplication/Across.antt =====
-- A notice that two sources publish has one key.
use tender_phase.Prelude.{◌≤◌, false, ◌≡◌, refl, ltb, arith}
use tender_phase.Crawler.Python.{Python}
use tender_phase.Crawler.Deduplication.Texts.{normalize_title, normalize_region}
use tender_phase.Crawler.Deduplication.Dates.{normalize_published_date}
use tender_phase.Crawler.Deduplication.Budgets.{normalize_budget_bucket}
use tender_phase.Crawler.Deduplication.Seeds.{
  KeyFields, purchaser_or_publisher, signal_count, build_notice_dedup_key,
  build_persistence_dedup_key,
}

module _ (python : Python) where
  -- The fields that describe a notice are the same once they are normalised.
  pub record AreAlike (f g : KeyFields) : Type 0 where
    pub title : normalize_title python f.title ≡ normalize_title python g.title
    pub date :
        normalize_published_date python f.published_at
        ≡ normalize_published_date python g.published_at
    pub publisher : purchaser_or_publisher python f ≡ purchaser_or_publisher python g
    pub budget :
        normalize_budget_bucket python f.budget_amount
        ≡ normalize_budget_bucket python g.budget_amount
    pub region : normalize_region python f.region ≡ normalize_region python g.region

  -- If two notices are alike and have two of the signals publisher, budget and region, their
  -- persistence keys are equal, wherever and under whatever ids they were published.
  pub persistence_key_across :
      (f g : KeyFields)
      → AreAlike f g
      → 2 ≤ signal_count python f
      → build_persistence_dedup_key python f ≡ build_persistence_dedup_key python g
  unfolding build_persistence_dedup_key build_notice_dedup_key
  persistence_key_across f g alike enough =
      let counts : signal_count python f ≡ signal_count python g =
        rw (alike.publisher, alike.budget, alike.region) refl in
      let here : ltb (signal_count python f) 2 ≡ false = ground arith in
      let there : ltb (signal_count python g) 2 ≡ false = rw counts at here in
      rw
        (
          here, there, build_notice_dedup_key, alike.title, alike.date, alike.publisher,
          alike.budget, alike.region,
        )
        refl
