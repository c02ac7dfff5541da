-- ===== src/Crawler/Samples.antt =====
-- A small Python, a context without rows, and items of one notice.
use Prim.Native.String.{String, [], ◌∷◌, ◌++◌}
use tender_phase.Prelude.{
  ℕ, suc, ◌+◌, ◌*◌, false, none, some, List, ◌≡◌, refl, ap, str_eq, eq_iff, if◌then◌else◌,
  Bool-cases, inl, inr, arith,
}
use tender_phase.Prelude.Integers.{ℤ, pos}
use tender_phase.Prelude.Text.{as_str, strip, rstrip, lstrip, before_stripped, is_blank, is_space}
use tender_phase.Prelude.Decimal.{print_int, parse_int}
use tender_phase.Prelude.Decimal.RoundTrip.{parse_int-print_int, strip-print_int}
use tender_phase.Clock.{days}
use tender_phase.Payloads.{Payload, text, int, put, str_of}
use tender_phase.Payloads.Laws.{get-put}
use tender_phase.Jobs.Samples.{waiting, waiting-IsConsistent}
use tender_phase.Crawler.Python.{Python, IsPython}
use tender_phase.Crawler.Items.{Item, as_text}
use tender_phase.Crawler.Rows.{Archive, WriterContext}
use tender_phase.Crawler.Keys.{Keys, IsKeys}
use tender_phase.Crawler.Invariant.{IsSound}
use tender_phase.Crawler.Deduplication.Normal.{deduplication}

abbrev size : String → ℕ
size [] = 0
size (c ∷ s) = suc (size s)

abbrev pub small : Python
small = record {
  nfkc = λ s. s;
  lower = λ s. s;
  sha256_hexdigest = λ s. print_int (pos (size s));
  fromisoformat = λ s. if str_eq s "2024-03-05" then some (days 19787) else none;
  strptime = λ s f. none;
  utc_date = λ y m d. days (d + 31 * m);
  decimal = λ s. some s;
  urlsplit = λ s. record { scheme = "https"; netloc = "example.org"; path = s; query = "" };
  urlparse_path = λ s. s;
  urlunsplit = λ u. u.scheme ++ "://" ++ u.netloc ++ u.path;
  parse_qsl = λ s b. List.[];
  urlencode = λ kvs. "";
  unquote = λ s. s;
  guess_type = λ s. none;
}

full : (z : ℤ) → str_eq (print_int z) "" ≡ false
unfolding parse_int
full z = elim (Bool-cases (str_eq (print_int z) "")) [
  | inr filled ↦ filled
  | inl empty ↦
      let e : print_int z ≡ "" = (eq_iff (print_int z) "").0 empty in
      let parsed : parse_int "" ≡ some z = rw e at (parse_int-print_int z) in absurd (cc)
]

pub small-IsPython : IsPython small
unfolding as_str
small-IsPython = record {
  digest = λ s. rw (strip-print_int (pos (size s)), full (pos (size s))) refl;
}

abbrev pub keys : Keys
keys = deduplication small

abbrev pub empty_archive : Archive
empty_archive = record {
  base = waiting;
  notices = List.[];
  versions = List.[];
  raw_documents = List.[];
  attachments = List.[];
  errors = List.[];
  next = record { notices = 0; versions = 0; raw_documents = 0; attachments = 0; errors = 0 };
}

abbrev pub start : WriterContext
start = record { archive = empty_archive; source_cache = List.[] }

pub start-IsSound : IsSound start.archive
start-IsSound = record {
  jobs_consistent = waiting-IsConsistent;
  notice_ids = λ k. omega arith;
  version_ids = λ k. omega arith;
  numbered_notices = λ e. tt;
  numbered_versions = λ e. tt;
  spans = tt;
  one_current = λ k. omega arith;
}

abbrev pub plain : Payload → Item
plain p = record { fields = p; extra_meta = none; structured_data = none }

abbrev pub road_works : Item
road_works = plain (
    List.◌∷◌ ("source_code", text "ggzy_gov_cn_deal")
      (List.◌∷◌ ("title", text " road works ")
        (List.◌∷◌ ("published_at", text "2024-03-05")
          (List.◌∷◌ ("content_text", text "a road")
            (List.◌∷◌ ("crawl_job_id", int (pos 1)) List.[])))))

-- Keys that take every item as it is, with one key for all notices.
abbrev pub one_key : Keys
one_key = record {
  normalize_notice_item = λ i. record i { fields = put "source_duplicate_key" (text "k") i.fields };
  normalize_raw_document_item = λ i. i;
  normalize_attachment_item = λ i. i;
  normalize_title = λ v. none;
  normalize_published_date = λ v. none;
  normalize_purchaser_or_publisher = λ v. none;
  normalize_region = λ v. none;
  normalize_budget_bucket = λ v. none;
}

pub one_key-IsKeys : IsKeys one_key
unfolding as_text as_str strip rstrip lstrip before_stripped is_blank is_space str_of
one_key-IsKeys = record {
  has_key = λ i.
      ("k", ap as_text (get-put "source_duplicate_key" "source_duplicate_key" (text "k") i.fields));
}

abbrev pub titled : Item
titled = plain (List.◌∷◌ ("title", text "road works") List.[])

-- The same notice with another text.
abbrev pub longer_road : Item
longer_road = plain (
    List.◌∷◌ ("source_code", text "ggzy_gov_cn_deal")
      (List.◌∷◌ ("title", text "road works")
        (List.◌∷◌ ("published_at", text "2024-03-05")
          (List.◌∷◌ ("content_text", text "a longer road") List.[]))))

-- A page without a URL, from a source that is not known yet.
abbrev pub lost_page : Item
lost_page = plain (List.◌∷◌ ("source_code", text "new_source") List.[])
