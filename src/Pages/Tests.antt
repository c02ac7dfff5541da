-- ===== src/Pages/Tests.antt =====
-- Pages of a database with one job.
use tender_phase.Prelude.{
  ℕ, Bool, true, false, not, ◌&&◌, none, some, List, [], ◌∷◌, ◌≡◌, refl, ltb, count, String,
  if◌then◌else◌, arith,
}
use tender_phase.Clock.{seconds}
use tender_phase.Model.{is_active, is_running, is_pending}
use tender_phase.Jobs.Sweep.{is_expired}
use tender_phase.Jobs.Lifecycle.{is_claimable}
use tender_phase.Jobs.Samples.{job}
use tender_phase.Prelude.Integers.{pos}
use tender_phase.Table
use tender_phase.Table.Order.{In}
use tender_phase.Crawler.Rows.{announcement, TenderNotice, NoticeVersion, Archive}
use tender_phase.Crawler.Samples.{empty_archive}
use tender_phase.Pages.Relations.{Relation, relations, related}
use tender_phase.Pages.Newest.{related_current}
use tender_phase.Pages.NoticeRows.{NoticeRow}
use tender_phase.Pages.Notices.{same_key, build_list_query}
use tender_phase.Pages.Unique.{build_list_query_one}
use tender_phase.Pages.Jobs.{CrawlJobQueryFilters}
use tender_phase.Pages.Progress.{build_crawl_job_progress}
use tender_phase.Pages.Stale.{progress_agrees}

abbrev pending_jobs : CrawlJobQueryFilters
pending_jobs = record {
  source_code = none;
  status = some "pending";
  job_type = some "";
  status_in = none;
  started_from = none;
}

progress_agrees_example :
    ((build_crawl_job_progress job (seconds 500)).is_active
      ≡ (is_active job.status && not (is_expired (seconds 500) job)))
    × (((build_crawl_job_progress job (seconds 500)).is_stale && is_running job.status)
        ≡ is_expired (seconds 500) job)
    × (((build_crawl_job_progress job (seconds 500)).is_stale
          && is_pending job.status
          && is_claimable (seconds 500) job)
        ≡ ((build_crawl_job_progress job (seconds 500)).is_stale && is_pending job.status))
progress_agrees_example = progress_agrees job (seconds 500)

abbrev bridge : TenderNotice
bridge = record {
  id = 4;
  source_site_id = 1;
  external_id = none;
  project_code = none;
  dedup_hash = none;
  dedup_key = none;
  source_duplicate_key = none;
  title = "a bridge";
  notice_type = announcement;
  issuer = none;
  region = none;
  published_at = none;
  deadline_at = none;
  budget_amount = none;
  budget_currency = "CNY";
  summary = none;
  first_published_at = none;
  latest_published_at = none;
  current_version_id = some 6;
}

abbrev version : ℕ → Bool → NoticeVersion
version id is_current = record {
  id = id;
  notice_id = 4;
  raw_document_id = some 9;
  version_no = pos 1;
  is_current = is_current;
  content_hash = "0a";
  dedup_key = none;
  source_duplicate_key = none;
  title = "a bridge";
  notice_type = announcement;
  issuer = none;
  region = none;
  published_at = none;
  deadline_at = none;
  budget_amount = none;
  budget_currency = "CNY";
  structured_data = [];
  change_summary = none;
}

abbrev two_versions : Archive
two_versions = record empty_archive {
  notices = bridge ∷ [];
  versions = version 6 true ∷ version 7 false ∷ [];
}

abbrev current : Relation
current = record { version = version 6 true; notice = bridge; source_code = "ggzy_gov_cn_deal" }

is_related :
    In current (relations two_versions.base.sources two_versions.notices two_versions.versions)
unfolding relations Table.get
is_related = In.here

related_current_example :
    (shown : Relation) × (related 9 two_versions ≡ some shown) × (shown.version.is_current ≡ true)
related_current_example = related_current 9 two_versions current is_related refl refl

abbrev listed : ℕ → String → NoticeRow
listed id key = record {
  id = id;
  source_code = "ggzy_gov_cn_deal";
  source_name = "deals";
  title = "a bridge";
  notice_type = announcement;
  issuer = none;
  region = none;
  published_at = none;
  deadline_at = none;
  budget_amount = none;
  current_version_id = none;
  dedup_key = key;
  is_recent_new = false;
}

abbrev three_rows : List NoticeRow
three_rows = listed 1 "k" ∷ listed 2 "k" ∷ listed 3 "m" ∷ []

build_list_query_one_example :
    count (λ item. same_key "k" item.row) (build_list_query true three_rows)
    ≡ (if ltb 0 (count (same_key "k") three_rows) then 1 else 0)
build_list_query_one_example = build_list_query_one three_rows "k" (λ i. ground arith)
