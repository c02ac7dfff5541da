-- ===== src/Crawler/Keys.antt =====
-- What the writers ask of `DeduplicationService`; `Crawler.Deduplication` fills it.
use tender_phase.Prelude.{String, Option, some, ◌≡◌}
use tender_phase.Payloads.{JsonValue}
use tender_phase.Crawler.Items.{Item, text_of}

pub record Keys : Type 0 where
  pub normalize_notice_item : Item → Item
  pub normalize_raw_document_item : Item → Item
  pub normalize_attachment_item : Item → Item
  pub normalize_title : Option JsonValue → Option String
  pub normalize_published_date : Option JsonValue → Option String
  pub normalize_purchaser_or_publisher : Option JsonValue → Option String
  pub normalize_region : Option JsonValue → Option String
  pub normalize_budget_bucket : Option JsonValue → Option String

-- A normalised notice has a key that tells it from the other notices of its source.
pub record IsKeys (k : Keys) : Type 0 where
  pub has_key :
      (i : Item)
      → (key : String) × (text_of "source_duplicate_key" (k.normalize_notice_item i) ≡ some key)
