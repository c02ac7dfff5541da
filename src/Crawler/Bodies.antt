-- ===== src/Crawler/Bodies.antt =====
-- What a writer does in its session keeps the tables sound.
use tender_phase.Prelude.{ℕ, Bool, true, String, Option, none, some, refl, or_option, or_else}
use tender_phase.Clock.{Time}
use tender_phase.Crawler.Python.{Python}
use tender_phase.Crawler.Items.{Item, value_of, text_of, int_of, as_bool}
use tender_phase.Crawler.Rows.{
  TenderNotice, NoticeVersion, RawDocument, TenderAttachment, Archive, Written,
}
use tender_phase.Crawler.Keys.{Keys}
use tender_phase.Crawler.Sources.{committed}
use tender_phase.Crawler.Documents.{
  document_at, known_document_type, store_document, write_document_at,
}
use tender_phase.Crawler.Notices.{
  save_notice, resolve_notice, store_notice, write_notice_at, exists_notice_version,
}
use tender_phase.Crawler.NoticeFields.{widen, apply_notice_fields}
use tender_phase.Crawler.Versions.{
  version_row, document_of, point_to, set_version, resolve_notice_version, store_version,
  version_of_notice, write_version_at,
}
use tender_phase.Crawler.Attachments.{
  FileNames, file_names, attachment_at, put_attachment, store_attachment, attachment_of_notice,
  write_attachment_at,
}
use tender_phase.Crawler.Invariant.{InSpan, IsSound, IsSound-same}
use tender_phase.Crawler.Spans.{apply-InSpan, widen-apply-InSpan}
use tender_phase.Crawler.Saves.{
  Leaves, Leaves-bind, Leaves-if, save_notice-IsSound, add_stats-IsSound,
}
use tender_phase.Crawler.Current.{set_version-IsSound}
use tender_phase.Crawler.Found.{
  Holds, Resolved, Opened, resolve_notice-Resolved, resolve_notice_version-Opened,
}

-- What is committed is sound, if anything is.
abbrev pub Commits : Written (Option Archive) → Type 0
Commits r = Leaves (Holds IsSound) r

pub Commits-committed : (m : Written Archive) → Leaves IsSound m → Commits (committed m)
Commits-committed m h = Leaves-bind IsSound (Holds IsSound) m _ h (λ a ha. ha)

module _ (python : Python) (keys : Keys) (i : Item) where
  store_notice-Commits :
      (o : Option (TenderNotice × Bool × Archive))
      → Resolved o
      → Commits (store_notice python keys i o)
  store_notice-Commits none h = tt
  store_notice-Commits (some (n, created, a)) (hn, h) = Commits-committed _ (
      Leaves-bind IsSound IsSound (save_notice (apply_notice_fields python keys i n) a) _
        (save_notice-IsSound a h (apply_notice_fields python keys i n)
          (apply-InSpan python keys i n hn))
        (λ a' ha. add_stats-IsSound (int_of "crawl_job_id" i) _ a' ha))

  pub write_notice_at-Commits :
      (source_id : ℕ) (a : Archive)
      → IsSound a
      → Commits (write_notice_at python keys i source_id a)
  unfolding write_notice_at
  write_notice_at-Commits source_id a h =
      Leaves-if (Holds IsSound)
        (exists_notice_version source_id
          (or_option (text_of "dedup_key" i) (text_of "source_duplicate_key" i))
          (text_of "source_duplicate_key" i) (text_of "content_hash" i) a)
        _ _ (λ _. Commits-committed _ (add_stats-IsSound (int_of "crawl_job_id" i) _ a h))
        (λ _.
          Leaves-bind Resolved (Holds IsSound) (resolve_notice python keys source_id i a) _
            (resolve_notice-Resolved python keys source_id i a h) store_notice-Commits)

  store_version-Commits :
      (source_id : ℕ) (found : TenderNotice) (o : Option (NoticeVersion × Bool × Archive))
      → InSpan found
      → Opened (as_bool (value_of "is_current" i) true) o
      → Commits (store_version python keys i source_id (apply_notice_fields python keys i found) o)
  store_version-Commits source_id found none hn h = tt
  store_version-Commits source_id found (some (v, created, a)) hn h =
      let n = apply_notice_fields python keys i found in
      let v' = version_row python i n (document_of python source_id i a) v in
      let stored : Archive = record a { versions = set_version v' a.versions } in
      Commits-committed _ (
        Leaves-bind IsSound IsSound (save_notice (widen v'.published_at (point_to v' n)) stored) _
          (save_notice-IsSound stored (set_version-IsSound v' a h)
            (widen v'.published_at (point_to v' n)) (widen-apply-InSpan python keys i found hn v'))
          (λ a' ha. add_stats-IsSound (int_of "crawl_job_id" i) _ a' ha))

  version_of_notice-Commits :
      (source_id : ℕ) (o : Option (TenderNotice × Bool × Archive))
      → Resolved o
      → Commits (version_of_notice python keys i source_id o)
  version_of_notice-Commits source_id none h = tt
  version_of_notice-Commits source_id (some (found, created, a)) (hn, h) =
      let n = apply_notice_fields python keys i found in
      Leaves-bind IsSound (Holds IsSound) (save_notice n a) _
        (save_notice-IsSound a h n (apply-InSpan python keys i found hn))
        (λ a' ha.
          Leaves-bind (Opened (as_bool (value_of "is_current" i) true)) (Holds IsSound)
            (resolve_notice_version python n.id i a') _
            (resolve_notice_version-Opened python n.id i a' ha)
            (λ o ho. store_version-Commits source_id found o hn ho))

  pub write_version_at-Commits :
      (source_id : ℕ) (a : Archive)
      → IsSound a
      → Commits (write_version_at python keys i source_id a)
  unfolding write_version_at
  write_version_at-Commits source_id a h =
      Leaves-bind Resolved (Holds IsSound) (resolve_notice python keys source_id i a) _
        (resolve_notice-Resolved python keys source_id i a h) (version_of_notice-Commits source_id)

  put_attachment-IsSound :
      (f : FileNames) (source_id : ℕ) (n : TenderNotice) (a : Archive) (o : Option TenderAttachment)
      → IsSound a
      → IsSound (put_attachment python keys i f source_id n a o)
  put_attachment-IsSound f source_id n a none h =
      IsSound-same h h.jobs_consistent refl refl refl refl refl
  put_attachment-IsSound f source_id n a (some x) h =
      IsSound-same h h.jobs_consistent refl refl refl refl refl

  store_attachment-Commits :
      (source_id : ℕ) (n : TenderNotice) (o : Option FileNames) (a : Archive)
      → IsSound a
      → Commits (store_attachment python keys i source_id n o a)
  store_attachment-Commits source_id n none a h = h
  store_attachment-Commits source_id n (some f) a h = Commits-committed _ (
      add_stats-IsSound (int_of "crawl_job_id" i) _ _ (
        put_attachment-IsSound f source_id n a (attachment_at python keys source_id f.url_hash a)
          h))

  attachment_of_notice-Commits :
      (source_id : ℕ) (o : Option (TenderNotice × Bool × Archive))
      → Resolved o
      → Commits (attachment_of_notice python keys i source_id o)
  attachment_of_notice-Commits source_id none h = tt
  attachment_of_notice-Commits source_id (some (found, created, a)) (hn, h) =
      let n = apply_notice_fields python keys i found in
      Leaves-bind IsSound (Holds IsSound) (save_notice n a) _
        (save_notice-IsSound a h n (apply-InSpan python keys i found hn))
        (store_attachment-Commits source_id n (file_names python i))

  pub write_attachment_at-Commits :
      (source_id : ℕ) (a : Archive)
      → IsSound a
      → Commits (write_attachment_at python keys i source_id a)
  unfolding write_attachment_at
  write_attachment_at-Commits source_id a h =
      Leaves-bind Resolved (Holds IsSound) (resolve_notice python keys source_id i a) _
        (resolve_notice-Resolved python keys source_id i a h)
        (attachment_of_notice-Commits source_id)

  store_document-IsSound :
      (url_hash : String) (now : Time) (source_id : ℕ) (duplicate : Bool) (o : Option RawDocument)
      (a : Archive)
      → IsSound a
      → IsSound (store_document python keys i url_hash now source_id duplicate o a)
  store_document-IsSound url_hash now source_id duplicate none a h =
      IsSound-same h h.jobs_consistent refl refl refl refl refl
  store_document-IsSound url_hash now source_id duplicate (some d) a h =
      IsSound-same h h.jobs_consistent refl refl refl refl refl

  pub write_document_at-Commits :
      (now : Time) (source_id : ℕ) (a : Archive) (url_hash : Option String)
      → IsSound a
      → Commits (write_document_at python keys i now source_id a url_hash)
  write_document_at-Commits now source_id a none h = tt
  write_document_at-Commits now source_id a (some url_hash) h =
      Leaves-if (Holds IsSound) (known_document_type (or_else (text_of "document_type" i) "html")) _
        _
        (λ _. Commits-committed _ (
          add_stats-IsSound (int_of "crawl_job_id" i) _ _ (
            store_document-IsSound url_hash now source_id _ (document_at source_id url_hash a) a
              h)))
        (λ _. tt)
