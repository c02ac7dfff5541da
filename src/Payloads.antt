-- ===== src/Payloads.antt =====
-- app/services/crawl_job_payloads.py: the JSON objects that a crawl job carries.
pub mod Laws
use tender_phase.Prelude.{
  ℕ, String, Bool, true, false, Option, none, some, List, [], ◌∷◌, str_eq, if◌then◌else◌,
}
use tender_phase.Prelude.Integers.{ℤ, pos}
use tender_phase.Prelude.Text.{strip}
use tender_phase.Prelude.Decimal.{print_int, parse_int}
use tender_phase.Clock.{Time, isoformat}

-- A JSON value. Of a float, a list or an object only the text that `str` gives is kept.
pub data JsonValue : Type 0 where
  null : JsonValue
  bool : Bool → JsonValue
  int : ℤ → JsonValue
  text : String → JsonValue
  other : String → JsonValue

abbrev pub Payload : Type 0
Payload = List (String × JsonValue)

-- `payload[key] = value`
unfoldable pub put : String → JsonValue → Payload → Payload
put k v [] = (k, v) ∷ []
put k v ((j, w) ∷ p) = if str_eq j k then (j, v) ∷ p else (j, w) ∷ put k v p

-- `payload.get(key)`
unfoldable pub get : String → Payload → Option JsonValue
get k [] = none
get k ((j, v) ∷ p) = if str_eq j k then some v else get k p

-- `if value: payload[key] = value`
unfoldable pub put_text : String → Option String → Payload → Payload
put_text k none p = p
put_text k (some s) p = if str_eq s "" then p else put k (text s) p

-- `if value is not None: payload[key] = int(value)`
unfoldable pub put_int : String → Option ℤ → Payload → Payload
put_int k none p = p
put_int k (some n) p = put k (int n) p

-- `if value is not None: payload[key] = value.isoformat()`
unfoldable pub put_time : String → Option Time → Payload → Payload
put_time k none p = p
put_time k (some t) p = put k (text (isoformat t)) p

pub record JobParams : Type 0 where
  pub source_code : String
  pub job_type : String
  pub triggered_by : Option String
  pub max_pages : Option ℤ
  pub backfill_year : Option ℤ
  pub retry_of_job_id : Option ℤ
  pub spider_name : Option String

unfoldable pub build_job_params_payload : JobParams → Payload
build_job_params_payload a =
    let p0 = ("source_code", text a.source_code) ∷ ("job_type", text a.job_type) ∷ [] in
    let p1 = put_text "triggered_by" a.triggered_by p0 in
    let p2 = put_int "max_pages" a.max_pages p1 in
    let p3 = put_int "backfill_year" a.backfill_year p2 in
    let p4 = put_int "retry_of_job_id" a.retry_of_job_id p3 in
    put_text "spider_name" a.spider_name p4

-- The keyword arguments of `build_runtime_stats_payload`, whose defaults are `None`.
pub record RuntimeStats : Type 0 where
  pub run_stage : String
  pub spider_name : Option String
  pub pages_scraped : Option ℤ
  pub list_seen : Option ℤ
  pub list_unique : Option ℤ
  pub detail_requests : Option ℤ
  pub dedup_skipped : Option ℤ
  pub notices_written : Option ℤ
  pub raw_documents_written : Option ℤ
  pub first_publish_date_seen : Option String
  pub last_publish_date_seen : Option String
  pub return_code : Option ℤ
  pub timeout_stage : Option String
  pub heartbeat_at : Option Time
  pub timeout_at : Option Time

abbrev pub stage_only : String → RuntimeStats
stage_only stage = record {
  run_stage = stage;
  spider_name = none;
  pages_scraped = none;
  list_seen = none;
  list_unique = none;
  detail_requests = none;
  dedup_skipped = none;
  notices_written = none;
  raw_documents_written = none;
  first_publish_date_seen = none;
  last_publish_date_seen = none;
  return_code = none;
  timeout_stage = none;
  heartbeat_at = none;
  timeout_at = none;
}

unfoldable pub build_runtime_stats_payload : RuntimeStats → Payload
build_runtime_stats_payload a =
    let p0 = ("run_stage", text a.run_stage) ∷ [] in
    let p1 = put_text "spider_name" a.spider_name p0 in
    let p2 = put_int "pages_scraped" a.pages_scraped p1 in
    let p3 = put_int "list_seen" a.list_seen p2 in
    let p4 = put_int "list_unique" a.list_unique p3 in
    let p5 = put_int "detail_requests" a.detail_requests p4 in
    let p6 = put_int "dedup_skipped" a.dedup_skipped p5 in
    let p7 = put_int "notices_written" a.notices_written p6 in
    let p8 = put_int "raw_documents_written" a.raw_documents_written p7 in
    let p9 = put_text "first_publish_date_seen" a.first_publish_date_seen p8 in
    let p10 = put_text "last_publish_date_seen" a.last_publish_date_seen p9 in
    let p11 = put_int "return_code" a.return_code p10 in
    let p12 = put_text "timeout_stage" a.timeout_stage p11 in
    let p13 = put_time "heartbeat_at" a.heartbeat_at p12 in put_time "timeout_at" a.timeout_at p13

-- `str(value)`
unfoldable pub str_of : JsonValue → String
str_of null = "None"
str_of (bool true) = "True"
str_of (bool false) = "False"
str_of (int n) = print_int n
str_of (text s) = s
str_of (other s) = s

read_int : Option JsonValue → Option ℤ
read_int none = none
read_int (some null) = none
read_int (some v) = parse_int (strip (str_of v))

unfoldable pub read_payload_int : Option Payload → String → Option ℤ
unfolding read_int
read_payload_int none key = none
read_payload_int (some p) key = read_int (get key p)

read_text : Option JsonValue → Option String
read_text none = none
read_text (some null) = none
read_text (some v) = let t = strip (str_of v) in if str_eq t "" then none else some t

unfoldable pub read_payload_text : Option Payload → String → Option String
unfolding read_text
read_payload_text none key = none
read_payload_text (some p) key = read_text (get key p)
