-- ===== src/Trigger/Reports.antt =====
-- What the service reports of a run: the failure reason, the final status and the messages.
use Prim.Native.String.{◌++◌}
use tender_phase.Prelude.{
  ℕ, zero, suc, ◌+◌, String, Bool, true, false, not, ◌&&◌, ◌||◌, Option, none, some, List, str_eq,
  leb, ltb, ◌==◌, select, first, if◌then◌else◌,
}
use tender_phase.Prelude.Integers.{ℤ, pos, negsuc}
use tender_phase.Prelude.Decimal.{print_int, print_nat}
use tender_phase.Prelude.Text.{strip, is_blank}
use tender_phase.Prelude.Search.{contains, begins_with}
use tender_phase.Payloads.{Payload, build_runtime_stats_payload, stage_only}
use tender_phase.Model.{
  JobStatus, succeeded, failed, partial, ErrorStage, fetch, parse, persist, CrawlError, status_text,
}
use tender_phase.Jobs.Service.{CrawlJobSnapshot, snapshot}
use tender_phase.Trigger.Arguments.{SpiderArgs}
use tender_phase.Trigger.Pages.{PageStats}
use tender_phase.Trigger.Requests.{arguments_text}

-- `_prefix_failure_reason`
unfoldable pub prefix_failure_reason : String → String → String
prefix_failure_reason prefix reason =
    let text = strip reason in
    if str_eq text ""
    then prefix
    else if str_eq text prefix || begins_with text (prefix ++ ":")
    then text
    else prefix ++ (": " ++ text)

abbrev pub is_fetch : ErrorStage → Bool
is_fetch fetch = true
is_fetch parse = false
is_fetch persist = false

abbrev pub is_parse : ErrorStage → Bool
is_parse fetch = false
is_parse parse = true
is_parse persist = false

abbrev pub lower_code : ℕ → ℕ
lower_code c = if leb 65 c && leb c 90 then c + 32 else c

-- `"detail" in message.lower()`, where only A to Z can give these letters, or the Chinese word.
abbrev pub mentions_detail : String → Bool
mentions_detail message = contains (λ c. c) message "详情" || contains lower_code message "detail"

abbrev pub has_message : CrawlError → Bool
has_message e = not (str_eq e.error_message "")

abbrev pub message_of : Option CrawlError → Option String
message_of none = none
message_of (some e) = some e.error_message

-- The errors of a job, in the order of the table.
unfoldable pub first_message : (CrawlError → Bool) → List CrawlError → Option String
first_message test errors = message_of (first (select test errors))

abbrev pub reason_or : String → Option String → String → String
reason_or prefix none other = other
reason_or prefix (some message) other = prefix_failure_reason prefix message

-- `_infer_failure_reason`, with the errors of the job.
unfoldable pub infer_failure_reason : List CrawlError → CrawlJobSnapshot → ℕ → ℤ → String
infer_failure_reason errors snapshot pages_scraped (negsuc n) =
    "页面获取失败: spider 进程退出(" ++ (print_int (negsuc n) ++ ")")
infer_failure_reason errors snapshot pages_scraped (pos (suc n)) =
    "页面获取失败: spider 进程退出(" ++ (print_int (pos (suc n)) ++ ")")
infer_failure_reason errors snapshot pages_scraped (pos zero) =
    let m = snapshot.metrics in
    let fetch_error = first_message (λ e. is_fetch e.stage && has_message e) errors in
    let parse_error = first_message (λ e. is_parse e.stage && has_message e) errors in
    let detail_error =
      first_message (λ e. is_parse e.stage && has_message e && mentions_detail e.error_message)
        errors in
    let any_error = first_message (λ e. not (is_blank e.error_message)) errors in
    let later =
      (if m.list_items_seen == 0
        then "列表解析为0"
        else reason_or "详情解析失败" detail_error (
            reason_or "详情解析失败" (if m.detail_pages_fetched == 0 then parse_error else none)
              (reason_or "详情解析失败" any_error "-"))) in
    reason_or "页面获取失败" (if pages_scraped == 0 || m.list_items_seen == 0 then fetch_error else none)
      later

-- `_infer_final_status`
unfoldable pub infer_final_status : CrawlJobSnapshot → String → ℤ → JobStatus
infer_final_status snapshot failure_reason (negsuc n) = failed
infer_final_status snapshot failure_reason (pos (suc n)) = failed
infer_final_status snapshot failure_reason (pos zero) =
    if begins_with (strip failure_reason) "页面获取失败"
    then failed
    else if ltb 0 snapshot.metrics.error_count
    then partial
    else succeeded

-- `pages_scraped if pages_scraped > 0 else int(snapshot.pages_fetched or 0)`
abbrev pub pages_metric : ℕ → CrawlJobSnapshot → ℕ
pages_metric pages_scraped snapshot =
    if ltb 0 pages_scraped then pages_scraped else snapshot.metrics.pages_fetched

abbrev pub dedup_skipped : CrawlJobSnapshot → ℕ
dedup_skipped s =
    s.metrics.list_items_source_duplicates_skipped + s.metrics.source_duplicates_suppressed

unfoldable pub build_final_runtime_stats_json : CrawlJobSnapshot → PageStats → ℤ → Payload
build_final_runtime_stats_json s pages return_code =
    build_runtime_stats_payload (record (stage_only "finished") {
      pages_scraped = some (pos (pages_metric pages.pages_scraped s));
      list_seen = some (pos s.metrics.list_items_seen);
      list_unique = some (pos s.metrics.list_items_unique);
      detail_requests = some (pos s.metrics.detail_pages_fetched);
      dedup_skipped = some (pos (dedup_skipped s));
      notices_written = some (pos s.metrics.notices_upserted);
      raw_documents_written = some (pos s.metrics.documents_saved);
      first_publish_date_seen = pages.first_publish_date_seen;
      last_publish_date_seen = pages.last_publish_date_seen;
      return_code = some return_code;
    })

abbrev pub text_part : String → Option String → String
text_part label none = ""
text_part label (some s) = if str_eq s "" then "" else "，" ++ (label ++ s)

abbrev pub count_part : String → ℕ → String
count_part label n = "，" ++ (label ++ print_nat n)

abbrev pub reason_part : String → String
reason_part reason =
    let text = strip reason in if str_eq text "" || str_eq text "-" then "" else "，异常 " ++ text

abbrev pub exit_part : ℤ → String
exit_part (pos zero) = ""
exit_part n = "，退出码 " ++ print_int n

-- `_build_job_summary_message`
unfoldable pub build_job_summary_message :
    JobStatus → String → CrawlJobSnapshot → PageStats → ℤ → String → String
build_job_summary_message final_status job_type s pages return_code failure_reason =
    let m = s.metrics in
    (job_type ++ " 任务已结束")
    ++ (("，状态 " ++ status_text final_status)
        ++ (count_part "列表页 " (pages_metric pages.pages_scraped s)
            ++ (count_part "列表项 " m.list_items_unique
                ++ (("/" ++ print_nat m.list_items_seen)
                    ++ (count_part "详情请求 " m.detail_pages_fetched
                        ++ (count_part "公告 " m.notices_upserted
                            ++ (count_part "归档 " m.documents_saved
                                ++ (count_part "去重跳过 " (dedup_skipped s)
                                    ++ (text_part "最早发布日期 " pages.first_publish_date_seen
                                        ++ (text_part "最晚发布日期 " pages.last_publish_date_seen
                                            ++ (reason_part failure_reason
                                                ++ exit_part return_code)))))))))))

abbrev pub running_message : String → String → SpiderArgs → String
running_message job_type spider_name args =
    job_type ++ (" 任务执行中（spider=" ++ (spider_name ++ ("）" ++ arguments_text args)))

abbrev pub failure_message : String → String → String → String
failure_message job_type run_stage reason =
    job_type ++ (" 任务在 " ++ (run_stage ++ (" 阶段失败：" ++ reason)))
