-- ===== src/Trigger/Pages.antt =====
-- `_collect_list_page_stats`: what the archived list pages of a job tell.
use Prim.Native.Char.{Char, code}
use Prim.Native.String.{compare}
use text.Mathlib.Text.{is_le}
use tender_phase.Prelude.{
  ℕ, suc, String, Bool, false, not, ◌&&◌, ◌||◌, ◌-◌, Option, none, some, List, [], ◌∷◌, ◌==◌,
  if◌then◌else◌,
}
use tender_phase.Prelude.Text.{strip}
use tender_phase.Payloads.{JsonValue, null, Payload, get, str_of}

-- The first ten characters of a text whose fifth and eighth are dashes.
abbrev iso_prefix : String → Option String
iso_prefix
      (String.◌∷◌ a (
        String.◌∷◌ b (
          String.◌∷◌ c (
            String.◌∷◌ d (
              String.◌∷◌ e
                (String.◌∷◌ f (String.◌∷◌ g (String.◌∷◌ h (String.◌∷◌ i (String.◌∷◌ j s)))))))))) =
    if code e == 45 && code h == 45
    then some (
        String.◌∷◌ a (
          String.◌∷◌ b (
            String.◌∷◌ c (
              String.◌∷◌ d (
                String.◌∷◌ e
                  (String.◌∷◌ f (String.◌∷◌ g (String.◌∷◌ h (String.◌∷◌ i (String.◌∷◌ j ""))))))))))
    else none
iso_prefix _ = none

unfoldable pub normalize_iso_date : Option JsonValue → Option String
normalize_iso_date none = none
normalize_iso_date (some null) = none
normalize_iso_date (some v) = iso_prefix (strip (str_of v))

-- The four dates of a page, in the order of the code.
unfoldable pub page_dates : Payload → List (Option String)
page_dates meta =
    normalize_iso_date (get "list_page_publish_date_max" meta)
    ∷ normalize_iso_date (get "list_page_publish_date_min" meta)
    ∷ normalize_iso_date (get "first_publish_date_seen_total" meta)
    ∷ normalize_iso_date (get "last_publish_date_seen_total" meta)
    ∷ []

-- `str(meta.get("role") or "").lower() == "list"`; in `lower` only A to Z can give these letters.
abbrev pub is_letter : ℕ → Char → Bool
is_letter lower c = code c == lower || code c == lower - 32

abbrev is_list_text : String → Bool
is_list_text (String.◌∷◌ a (String.◌∷◌ b (String.◌∷◌ c (String.◌∷◌ d String.[])))) =
    is_letter 108 a && is_letter 105 b && is_letter 115 c && is_letter 116 d
is_list_text _ = false

abbrev pub is_list_page : Payload → Bool
is_list_page meta = elim (get "role" meta) [ none ↦ false | some v ↦ is_list_text (str_of v) ]

-- `pages_scraped`, `first_publish_date_seen` and `last_publish_date_seen`
pub record PageStats : Type 0 where
  pub pages_scraped : ℕ
  pub first_publish_date_seen : Option String
  pub last_publish_date_seen : Option String

abbrev pub is_before : String → String → Bool
is_before s t = not (is_le (compare t s))

abbrev pub greater_of : Option String → String → String
greater_of none d = d
greater_of (some s) d = if is_before s d then d else s

abbrev pub lesser_of : Option String → String → String
lesser_of none d = d
lesser_of (some s) d = if is_before d s then d else s

-- One round of the inner loop.
unfoldable pub see_date : Option String → PageStats → PageStats
see_date none p = p
see_date (some d) p = record p {
  first_publish_date_seen = some (greater_of p.first_publish_date_seen d);
  last_publish_date_seen = some (lesser_of p.last_publish_date_seen d);
}

unfoldable pub see_dates : List (Option String) → PageStats → PageStats
see_dates [] p = p
see_dates (d ∷ ds) p = see_dates ds (see_date d p)

-- The outer loop, over `extra_meta` of the documents; none stands for one that is no object.
unfoldable pub see_pages : List (Option Payload) → PageStats → PageStats
see_pages [] p = p
see_pages (none ∷ metas) p = see_pages metas p
see_pages (some meta ∷ metas) p =
    if is_list_page meta
    then see_pages metas
        (see_dates (page_dates meta) (record p { pages_scraped = suc p.pages_scraped }))
    else see_pages metas p

unfoldable pub collect_list_page_stats : List (Option Payload) → PageStats
collect_list_page_stats metas =
    see_pages metas
      (record { pages_scraped = 0; first_publish_date_seen = none; last_publish_date_seen = none })
