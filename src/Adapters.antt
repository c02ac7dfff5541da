-- ===== src/Adapters.antt =====
-- app/services/source_adapter_registry.py: the sources that a spider is written for, and the
-- aliases under which older databases keep them.
pub mod Aliases
use tender_phase.Prelude.{
  String, Bool, true, false, ◌||◌, Option, none, some, List, [], ◌∷◌, str_eq, map, is_some,
  if◌then◌else◌,
}
use Prim.Native.String.{compare}
use text.Mathlib.Text.{is_le}
use mathlib.Core.Path.{◌≡◌, refl}
use tender_phase.Prelude.Text.{strip}

pub record SourceAdapterMeta : Type 0 where
  pub source_code : String
  pub spider_name : String
  pub business_code : String
  pub display_name : String
  pub base_url : String
  pub official_url : String
  pub list_url : String
  pub supported_job_types : List String

abbrev adapter_job_types : List String
adapter_job_types = "manual" ∷ "manual_retry" ∷ "backfill" ∷ []

abbrev example_source : SourceAdapterMeta
example_source = record {
  source_code = "example_source";
  spider_name = "example_source";
  business_code = "example_source";
  display_name = "示例来源";
  base_url = "https://example.com/";
  official_url = "https://example.com/";
  list_url = "https://example.com/notices";
  supported_job_types = adapter_job_types;
}

abbrev anhui_ggzy_zfcg : SourceAdapterMeta
anhui_ggzy_zfcg = record {
  source_code = "anhui_ggzy_zfcg";
  spider_name = "anhui_ggzy_zfcg";
  business_code = "anhui_ggzy_zfcg";
  display_name = "安徽省公共资源交易监管网（政府采购）";
  base_url = "https://ggzy.ah.gov.cn/";
  official_url = "https://ggzy.ah.gov.cn/";
  list_url = "https://ggzy.ah.gov.cn/zfcg/list?bulletinNature=1&time=1";
  supported_job_types = adapter_job_types;
}

abbrev ggzy_gov_cn_deal : SourceAdapterMeta
ggzy_gov_cn_deal = record {
  source_code = "ggzy_gov_cn_deal";
  spider_name = "ggzy_gov_cn_deal";
  business_code = "ggzy_gov_cn_deal";
  display_name = "全国公共资源交易平台（政府采购）";
  base_url = "https://www.ggzy.gov.cn/";
  official_url = "https://www.ggzy.gov.cn/";
  list_url = "https://www.ggzy.gov.cn/deal/dealList.html?HEADER_DEAL_TYPE=02";
  supported_job_types = adapter_job_types;
}

abbrev pub integrated_adapters : List (String × SourceAdapterMeta)
integrated_adapters =
    ("example_source", example_source)
    ∷ ("anhui_ggzy_zfcg", anhui_ggzy_zfcg)
    ∷ ("ggzy_gov_cn_deal", ggzy_gov_cn_deal)
    ∷ []

-- The `get` of a dictionary literal.
abbrev pub lookup {ℓ} : {V : Type ℓ} → String → List (String × V) → Option V
lookup k [] = none
lookup k ((j, v) ∷ m) = if str_eq j k then some v else lookup k m

abbrev pub legacy_source_code_aliases : List (String × String)
legacy_source_code_aliases = ("2", "ggzy_gov_cn_deal") ∷ ("ggzy_gov_cn", "ggzy_gov_cn_deal") ∷ []

abbrev or_self : Option String → String → String
or_self none s = s
or_self (some t) s = t

unfoldable pub normalize_source_code : String → String
normalize_source_code source_code =
    let normalized = strip source_code in
    if str_eq normalized ""
    then normalized
    else or_self (lookup normalized legacy_source_code_aliases) normalized

unfoldable pub get_source_adapter : String → Option SourceAdapterMeta
get_source_adapter source_code = lookup (normalize_source_code source_code) integrated_adapters

unfoldable pub is_source_integrated : String → Bool
is_source_integrated source_code = is_some (get_source_adapter source_code)

unfoldable pub resolve_spider_name : String → Option String
resolve_spider_name source_code = elim (get_source_adapter source_code) [
  | none ↦ none
  | some adapter ↦ some adapter.spider_name
]

-- `text in names`
abbrev pub is_one_of : String → List String → Bool
is_one_of s [] = false
is_one_of s (t ∷ ts) = str_eq s t || is_one_of s ts

unfoldable pub supports_job_type : String → String → Bool
supports_job_type source_code job_type = elim (get_source_adapter source_code) [
  | none ↦ false
  | some adapter ↦ is_one_of job_type adapter.supported_job_types
]

-- Insertion into a sorted list of texts, by code points.
insert_sorted : String → List String → List String
insert_sorted s [] = s ∷ []
insert_sorted s (t ∷ ts) = if is_le (compare s t) then s ∷ t ∷ ts else t ∷ insert_sorted s ts

-- `sorted(mapping.keys())`
sorted_keys {ℓ} : {V : Type ℓ} → List (String × V) → List String
unfolding insert_sorted
sorted_keys [] = []
sorted_keys ((k, v) ∷ m) = insert_sorted k (sorted_keys m)

unfoldable pub list_integrated_source_codes : List String
unfolding sorted_keys
list_integrated_source_codes = sorted_keys integrated_adapters

listed_codes :
    list_integrated_source_codes ≡ "anhui_ggzy_zfcg" ∷ "example_source" ∷ "ggzy_gov_cn_deal" ∷ []
unfolding list_integrated_source_codes
listed_codes = refl
