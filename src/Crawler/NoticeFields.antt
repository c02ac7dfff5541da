-- ===== src/Crawler/NoticeFields.antt =====
-- The readers of a notice, `_find_notice_by_high_similarity` and `_apply_notice_fields`.
use Prim.Native.String.{◌++◌}
use tender_phase.Prelude.{
  ℕ, ◌+◌, String, Bool, false, ◌&&◌, ◌||◌, Option, none, some, List, str_eq, ltb, leb, ◌==◌,
  if◌then◌else◌, or_else, or_option, select, first,
}
use tender_phase.Prelude.Text.{as_str}
use tender_phase.Clock.{Time, days}
use tender_phase.Payloads.{JsonValue, text, other}
use tender_phase.Crawler.Python.{Python}
use tender_phase.Crawler.Items.{Item, or_value, as_text, value_of, text_of, as_datetime, as_decimal}
use tender_phase.Crawler.Rows.{
  NoticeType, announcement, change, result, TenderNotice, is_text, same_text,
}
use tender_phase.Crawler.Keys.{Keys}

-- `_normalize_notice_type`
unfoldable pub normalize_notice_type : Option String → NoticeType
normalize_notice_type t = elim (as_str t) [
  | none ↦ announcement
  | some s ↦
      if str_eq s "change" then change else if str_eq s "result" then result else announcement
]

abbrev pub type_text : NoticeType → String
type_text announcement = "announcement"
type_text change = "change"
type_text result = "result"

abbrev pub external_id_of : Item → Option String
external_id_of i = as_text (or_value (value_of "external_id" i) (value_of "notice_external_id" i))

abbrev pub dedup_hash_of : Item → Option String
dedup_hash_of i = as_text (or_value (value_of "dedup_hash" i) (value_of "notice_dedup_hash" i))

-- `SELECT … WHERE source_site_id = … AND column = …`, if there is a value to look for
unfoldable pub notice_by :
    (TenderNotice → Option String) → ℕ → Option String → List TenderNotice → Option TenderNotice
notice_by column source_id none ns = none
notice_by column source_id (some t) ns =
    first (select (λ n. n.source_site_id == source_id && is_text (column n) t) ns)

abbrev pub in_day : ℕ → Option Time → TenderNotice → Bool
in_day source_id none n = false
in_day source_id (some day_start) n = n.source_site_id == source_id && (elim n.published_at [
  | none ↦ false
  | some t ↦ leb day_start t && ltb t (day_start + days 1)
])

-- A signal of the item that is there, and that the candidate has too.
abbrev pub agrees : Option String → Option String → ℕ
agrees a b = elim a [ none ↦ 0 | some s ↦ if is_text b s then 1 else 0 ]

abbrev pub signal : Option String → ℕ
signal a = elim a [ none ↦ 0 | some s ↦ 1 ]

-- A column of a row, as the value of a dict.
abbrev pub text_value : Option String → Option JsonValue
text_value none = none
text_value (some t) = some (text t)

abbrev pub decimal_value : Option String → Option JsonValue
decimal_value none = none
decimal_value (some t) = some (other t)

-- The dates: one notice is published at the time of the item, and its first and latest times are
-- kept apart.
abbrev pub earlier : Option Time → Time → Time
earlier none t = t
earlier (some f) t = if ltb t f then t else f

abbrev pub later : Option Time → Time → Time
later none t = t
later (some l) t = if ltb l t then t else l

unfoldable pub widen : Option Time → TenderNotice → TenderNotice
widen none n = n
widen (some t) n = record n {
  first_published_at = some (earlier n.first_published_at t);
  latest_published_at = some (later n.latest_published_at t);
}

unfoldable pub set_published : Option Time → TenderNotice → TenderNotice
unfolding widen
set_published none n = n
set_published (some t) n = widen (some t) (record n { published_at = some t })

module _ (python : Python) (keys : Keys) where
  abbrev pub matches : Item → Option String → TenderNotice → Bool
  matches i title n =
      let issuer = keys.normalize_purchaser_or_publisher (value_of "issuer" i) in
      let region = keys.normalize_region (value_of "region" i) in
      let budget = keys.normalize_budget_bucket (value_of "budget_amount" i) in
      let available = signal issuer + signal region + signal budget in
      let matched =
        agrees issuer (keys.normalize_purchaser_or_publisher (text_value n.issuer))
        + agrees region (keys.normalize_region (text_value n.region))
        + agrees budget (keys.normalize_budget_bucket (decimal_value n.budget_amount)) in
      same_text (keys.normalize_title (some (text n.title))) title
      && ((available == 1 && matched == 1) || (leb 2 available && leb 2 matched))

  abbrev pub similar_on :
      ℕ → Item → Option String → Option String → List TenderNotice → Option TenderNotice
  similar_on source_id i (some title) (some date) ns = first (
      select (matches i (some title))
        (select (in_day source_id (python.fromisoformat (date ++ "T00:00:00+00:00"))) ns))
  similar_on source_id i _ _ ns = none

  -- Without a signal nothing matches, since no number of matches is 1 or 2 then.
  unfoldable pub find_notice_by_high_similarity : ℕ → Item → List TenderNotice → Option TenderNotice
  find_notice_by_high_similarity source_id i ns =
      similar_on source_id i (keys.normalize_title (value_of "title" i))
        (keys.normalize_published_date (value_of "published_at" i)) ns

  unfoldable pub find_notice : ℕ → Item → List TenderNotice → Option TenderNotice
  find_notice source_id i ns =
      or_option (notice_by (λ n. n.external_id) source_id (external_id_of i) ns) (
        or_option
          (notice_by (λ n. n.source_duplicate_key) source_id (text_of "source_duplicate_key" i) ns)
          (or_option (notice_by (λ n. n.dedup_key) source_id (text_of "dedup_key" i) ns) (
            or_option (notice_by (λ n. n.dedup_hash) source_id (dedup_hash_of i) ns)
              (find_notice_by_high_similarity source_id i ns))))

  abbrev pub new_notice : ℕ → ℕ → String → Item → TenderNotice
  new_notice id source_id title i = record {
    id = id;
    source_site_id = source_id;
    external_id = external_id_of i;
    project_code = text_of "project_code" i;
    dedup_hash = dedup_hash_of i;
    dedup_key = text_of "dedup_key" i;
    source_duplicate_key = text_of "source_duplicate_key" i;
    title = title;
    notice_type = normalize_notice_type (text_of "notice_type" i);
    issuer = text_of "issuer" i;
    region = text_of "region" i;
    published_at = as_datetime python (value_of "published_at" i);
    deadline_at = as_datetime python (value_of "deadline_at" i);
    budget_amount = as_decimal python (value_of "budget_amount" i);
    budget_currency = or_else (text_of "budget_currency" i) "CNY";
    summary = or_option (text_of "summary" i) (text_of "content_text" i);
    first_published_at = as_datetime python (value_of "published_at" i);
    latest_published_at = as_datetime python (value_of "published_at" i);
    current_version_id = none;
  }

  abbrev pub apply_texts : Item → TenderNotice → TenderNotice
  apply_texts i n = record n {
    title = or_else (text_of "title" i) n.title;
    notice_type =
        normalize_notice_type (some (or_else (text_of "notice_type" i) (type_text n.notice_type)));
    external_id = or_option (external_id_of i) n.external_id;
    project_code = or_option (text_of "project_code" i) n.project_code;
    dedup_hash = or_option (dedup_hash_of i) n.dedup_hash;
    dedup_key =
        or_option (text_of "dedup_key" i)
          (or_option (text_of "source_duplicate_key" i) n.dedup_key);
    source_duplicate_key = or_option (text_of "source_duplicate_key" i) n.source_duplicate_key;
    issuer = or_option (text_of "issuer" i) n.issuer;
    region = or_option (text_of "region" i) n.region;
    deadline_at = or_option (as_datetime python (value_of "deadline_at" i)) n.deadline_at;
    budget_amount = or_option (as_decimal python (value_of "budget_amount" i)) n.budget_amount;
    budget_currency = or_else (text_of "budget_currency" i) n.budget_currency;
    summary = or_option (text_of "summary" i) (or_option (text_of "content_text" i) n.summary);
  }

  unfoldable pub apply_notice_fields : Item → TenderNotice → TenderNotice
  apply_notice_fields i n =
      set_published (as_datetime python (value_of "published_at" i)) (apply_texts i n)
