-- ===== src/Crawler/Deduplication/Urls.antt =====
-- `normalize_url`, `normalize_detail_url` and `extract_detail_locator`.
use Prim.Native.String.{String, compare}
use package.text.Mathlib.Text.{is_le}
use tender_phase.Prelude.{
  Bool, true, false, not, ◌||◌, Option, none, some, List, [], ◌∷◌, str_eq, if◌then◌else◌, or_option,
  select,
}
use tender_phase.Prelude.Text.{strip}
use tender_phase.Prelude.Search.{begins_with}
use tender_phase.Table
use tender_phase.Adapters.{is_one_of}
use tender_phase.Payloads.{JsonValue, text}
use tender_phase.Crawler.Python.{Python}
use tender_phase.Crawler.Items.{as_text}
use tender_phase.Crawler.Deduplication.Texts.{normalize_lower}

-- The order of Python on pairs of texts.
abbrev pub pair_before : String × String → String × String → Bool
pair_before (k, v) (j, w) = if str_eq k j then is_le (compare v w) else is_le (compare k j)

abbrev pub irrelevant_names : List String
irrelevant_names =
    "_" ∷ "_t" ∷ "_ts" ∷ "from" ∷ "rand" ∷ "random" ∷ "ref" ∷ "referer" ∷ "sessionid" ∷ "sid"
    ∷ "spm" ∷ "timestamp" ∷ "track" ∷ "tracking" ∷ []

-- `_DETAIL_LOCATOR_KEYS`, each with its `key.upper()`
abbrev pub locator_keys : List (String × String)
locator_keys =
    ("guid", "GUID")
    ∷ ("detail_id", "DETAIL_ID")
    ∷ ("detailid", "DETAILID")
    ∷ ("id", "ID")
    ∷ ("notice_id", "NOTICE_ID")
    ∷ ("noticeid", "NOTICEID")
    ∷ ("article_id", "ARTICLE_ID")
    ∷ ("articleid", "ARTICLEID")
    ∷ []

-- The first value that a query has for a key.
unfoldable pub query_value : String → List (String × String) → Option String
query_value key [] = none
query_value key ((k, v) ∷ kvs) = if str_eq k key then some v else query_value key kvs

module _ (python : Python) where
  abbrev pub is_relevant : String × String → Bool
  is_relevant (key, value) =
      let lowered = python.lower (strip key) in
      not (is_one_of lowered irrelevant_names || begins_with lowered "utm_")

  abbrev pub sorted_query : List (String × String) → String
  sorted_query kvs = python.urlencode (Table.order_by pair_before kvs)

  unfoldable pub normalize_url : String → String
  normalize_url url =
      let parts = python.urlsplit (strip url) in
      python.urlunsplit (record {
        scheme = python.lower parts.scheme;
        netloc = python.lower parts.netloc;
        path = if str_eq parts.path "" then "/" else parts.path;
        query = sorted_query (python.parse_qsl parts.query true);
      })

  -- `_drop_irrelevant_query_params`
  unfoldable pub drop_irrelevant : String → String
  drop_irrelevant url =
      let parts = python.urlsplit (strip url) in
      python.urlunsplit (record parts {
        query = sorted_query (select is_relevant (python.parse_qsl parts.query true));
      })

  abbrev pub detail_url_of : Option String → Option String
  detail_url_of none = none
  detail_url_of (some t) = some (normalize_url (drop_irrelevant t))

  unfoldable pub normalize_detail_url : Option JsonValue → Option String
  normalize_detail_url v = detail_url_of (as_text v)

  abbrev pub located : Option String → Option String
  located none = none
  located (some value) = normalize_lower python (some (text value))

  unfoldable pub first_locator : List (String × String) → List (String × String) → Option String
  first_locator [] query = none
  first_locator ((key, upper) ∷ keys) query =
      or_option (located (or_option (query_value key query) (query_value upper query)))
        (first_locator keys query)

  abbrev pub locator_in : Option String → Option String
  locator_in none = none
  locator_in (some url) =
      or_option (first_locator locator_keys (python.parse_qsl (python.urlsplit url).query false))
        (some url)

  unfoldable pub extract_detail_locator : (detail_url detail_id : Option JsonValue) → Option String
  extract_detail_locator detail_url detail_id =
      or_option (normalize_lower python detail_id) (locator_in (normalize_detail_url detail_url))
