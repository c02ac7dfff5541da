-- ===== src/Crawler/Deduplication/Seeds.antt =====
-- The keys that are hashed from normalised fields.
use Prim.Native.String.{◌++◌}
use tender_phase.Prelude.{
  ℕ, ◌+◌, String, Bool, Option, none, some, List, [], ◌∷◌, ltb, if◌then◌else◌, or_option, or_else,
}
use tender_phase.Payloads.{JsonValue}
use tender_phase.Crawler.Python.{Python}
use tender_phase.Crawler.Items.{as_text, or_value}
use tender_phase.Crawler.NoticeFields.{normalize_notice_type, type_text, signal}
use tender_phase.Crawler.Deduplication.Texts.{
  normalize_lower, normalize_title, normalize_region, normalize_purchaser_or_publisher,
}
use tender_phase.Crawler.Deduplication.Dates.{normalize_published_date}
use tender_phase.Crawler.Deduplication.Budgets.{normalize_budget_bucket}
use tender_phase.Crawler.Deduplication.Urls.{normalize_detail_url, extract_detail_locator}

-- `"|".join(...)`
unfoldable pub join_bars : List String → String
join_bars [] = ""
join_bars (s ∷ []) = s
join_bars (s ∷ t ∷ r) = s ++ "|" ++ join_bars (t ∷ r)

-- `_stable_seed_text`
abbrev pub stable_seed_text : Option String → String
stable_seed_text v = or_else v "-"

-- The fields of a notice from which a key is made; a field that is absent is `None`.
pub record KeyFields : Type 0 where
  pub title : Option JsonValue
  pub published_at : Option JsonValue
  pub purchaser : Option JsonValue
  pub publisher : Option JsonValue
  pub budget_amount : Option JsonValue
  pub region : Option JsonValue
  pub detail_url : Option JsonValue
  pub detail_id : Option JsonValue

module _ (python : Python) where
  unfoldable pub build_source_list_item_fingerprint :
      (source_code title detail_url published_at region notice_type : Option JsonValue)
      → (include_detail_locator : Bool) → String
  build_source_list_item_fingerprint source_code title detail_url published_at region notice_type
        include_detail_locator =
      python.sha256_hexdigest (
        join_bars (
          stable_seed_text (as_text source_code)
          ∷ stable_seed_text (normalize_title python title)
          ∷ stable_seed_text
              (if include_detail_locator then normalize_detail_url python detail_url else none)
          ∷ stable_seed_text (normalize_published_date python published_at)
          ∷ type_text (normalize_notice_type (as_text notice_type))
          ∷ stable_seed_text (normalize_region python region)
          ∷ []))

  abbrev pub purchaser_or_publisher : KeyFields → Option String
  purchaser_or_publisher f =
      or_option (normalize_purchaser_or_publisher python f.purchaser)
        (normalize_purchaser_or_publisher python f.publisher)

  unfoldable pub build_notice_dedup_key : (include_detail_locator : Bool) → KeyFields → String
  build_notice_dedup_key include_detail_locator f = python.sha256_hexdigest (
      join_bars (
        stable_seed_text (normalize_title python f.title)
        ∷ stable_seed_text (normalize_published_date python f.published_at)
        ∷ stable_seed_text (purchaser_or_publisher f)
        ∷ stable_seed_text (normalize_budget_bucket python f.budget_amount)
        ∷ stable_seed_text (normalize_region python f.region)
        ∷ stable_seed_text (
            if include_detail_locator
            then extract_detail_locator python f.detail_url f.detail_id
            else none)
        ∷ []))

  abbrev pub signal_count : KeyFields → ℕ
  signal_count f =
      signal (purchaser_or_publisher f)
      + signal (normalize_budget_bucket python f.budget_amount)
      + signal (normalize_region python f.region)

  -- Two of the three signals make the place of the notice unnecessary.
  unfoldable pub build_persistence_dedup_key : KeyFields → String
  build_persistence_dedup_key f = build_notice_dedup_key (ltb (signal_count f) 2) f

  abbrev pub duplicate_key_at :
      (source_code notice_type issuer : Option JsonValue) → KeyFields → Option String → String
  duplicate_key_at source_code notice_type issuer f (some locator) = python.sha256_hexdigest (
      join_bars (
        stable_seed_text (normalize_lower python source_code)
        ∷ type_text (normalize_notice_type (as_text notice_type))
        ∷ locator
        ∷ []))
  duplicate_key_at source_code notice_type issuer f none =
      build_persistence_dedup_key
        (record f { publisher = or_value f.publisher issuer; detail_url = none; detail_id = none })

  -- The fields hold the publisher; the issuer stands in for it.
  unfoldable pub build_source_duplicate_key :
      (source_code notice_type issuer : Option JsonValue) → KeyFields → String
  build_source_duplicate_key source_code notice_type issuer f =
      duplicate_key_at source_code notice_type issuer f
        (extract_detail_locator python f.detail_url f.detail_id)
