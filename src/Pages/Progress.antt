-- ===== src/Pages/Progress.antt =====
-- app/services/crawl_job_progress_service.py: what is said of the progress of a job.
use Prim.Native.String.{◌++◌}
use tender_phase.Prelude.{
  ℕ, ◌+◌, String, Bool, true, false, not, ◌&&◌, ◌||◌, Option, none, some, List, [], ◌∷◌, ltb, leb,
  ◌==◌, if◌then◌else◌, is_some,
}
use mathlib.Core.Option
use tender_phase.Prelude.Decimal.{print_nat}
use tender_phase.Clock.{Time, isoformat}
use tender_phase.Model.{
  JobStatus, pending, running, succeeded, failed, partial, JobType, scheduled, manual, backfill,
  manual_retry, CrawlJob, JobMetrics, is_active, is_pending, is_running,
}
use tender_phase.Jobs.Rules.{resolve_timeout_at}

pub record CrawlJobProgress : Type 0 where
  pub is_active : Bool
  pub is_stale : Bool
  pub job_type_label : String
  pub status_label : String
  pub stage_label : String
  pub summary_text : String
  pub heartbeat_at : Option String
  pub timeout_at : Option String
  pub lease_expires_at : Option String

-- `JOB_TYPE_LABELS`
abbrev pub job_type_label : JobType → String
job_type_label manual = "手动抓取"
job_type_label scheduled = "自动抓取"
job_type_label backfill = "回填抓取"
job_type_label manual_retry = "重试抓取"

-- `STATUS_LABELS`
abbrev pub status_label : JobStatus → String
status_label pending = "排队中"
status_label running = "抓取中"
status_label succeeded = "已完成"
status_label failed = "失败"
status_label partial = "部分成功"

-- `_is_stale`
unfoldable pub is_stale : JobStatus → Option Time → (now : Time) → Bool
is_stale status timeout_at now =
    is_active status && (elim timeout_at [ none ↦ false | some t ↦ leb t now ])

-- `_metric`
unfoldable pub metric : (label : String) (value : ℕ) (positive_only : Bool) → Option String
metric label value positive_only =
    if positive_only && value == 0 then none else some (label ++ " " ++ print_nat value)

-- The parts that are there, with a mark between them; `none` if there is none.
abbrev pub joined_parts : List (Option String) → Option String
joined_parts [] = none
joined_parts (none ∷ ps) = joined_parts ps
joined_parts (some s ∷ ps) = elim (joined_parts ps) [
  | none ↦ some s
  | some t ↦ some (s ++ " / " ++ t)
]

-- `_join_parts`
unfoldable pub join_parts : List (Option String) → (fallback : String) → String
join_parts parts fallback = elim (joined_parts parts) [ none ↦ fallback | some t ↦ t ]

abbrev pub metrics_text : JobMetrics → Bool → String → String
metrics_text m positive_only fallback =
    join_parts
      (metric "列表页" m.pages_fetched positive_only
        ∷ metric "列表项" m.list_items_seen positive_only
        ∷ metric "唯一项" m.list_items_unique positive_only
        ∷ metric "详情页" m.detail_pages_fetched positive_only
        ∷ metric "公告" m.notices_upserted positive_only
        ∷ metric "归档" m.documents_saved positive_only
        ∷ metric "去重跳过" (m.list_items_source_duplicates_skipped + m.source_duplicates_suppressed)
            positive_only
        ∷ metric "错误" m.error_count positive_only
        ∷ [])
      fallback

abbrev pub running_stage : JobMetrics → String
running_stage m =
    if ltb 0 m.detail_pages_fetched || ltb 0 m.documents_saved || ltb 0 m.notices_upserted
    then "抓取详情与入库"
    else if ltb 0 m.list_items_seen || ltb 0 m.list_items_unique
    then "解析列表页"
    else if ltb 0 m.pages_fetched
    then "抓取列表页"
    else "启动 Spider"

-- The label of the stage and the summary, by whether the job is stale and its status.
unfoldable pub stage_and_summary : Bool → JobStatus → CrawlJob → String × String
stage_and_summary true pending j = ("等待重派发", "任务派发租约已过期，等待独立 dispatcher 重试")
stage_and_summary true running j = ("心跳超时", "任务心跳已过期，执行进程可能已退出或卡死")
stage_and_summary false pending j =
    if is_some j.picked_at
    then ("等待 Worker 启动", "dispatcher 已领取任务，等待 worker 启动")
    else ("等待启动", "已入队，等待启动")
stage_and_summary false running j = (
  running_stage j.metrics,
  metrics_text j.metrics true (job_type_label j.job_type ++ "已启动，正在持续更新统计"),
)
stage_and_summary stale succeeded j = (status_label succeeded, metrics_text j.metrics false "-")
stage_and_summary stale failed j = (status_label failed, metrics_text j.metrics false "-")
stage_and_summary stale partial j = (status_label partial, metrics_text j.metrics false "-")

-- Of a job whose columns are those of the table; the clock shows `now`.
unfoldable pub build_crawl_job_progress : CrawlJob → (now : Time) → CrawlJobProgress
build_crawl_job_progress j now =
    let timeout_at = resolve_timeout_at j in
    let stale = is_stale j.status timeout_at now in
    let (stage, summary) = stage_and_summary stale j.status j in
    record {
      is_active = is_pending j.status || (is_running j.status && not stale);
      is_stale = stale;
      job_type_label = job_type_label j.job_type;
      status_label = status_label j.status;
      stage_label = stage;
      summary_text = summary;
      heartbeat_at = Option.map isoformat j.heartbeat_at;
      timeout_at = Option.map isoformat timeout_at;
      lease_expires_at = Option.map isoformat timeout_at;
    }
