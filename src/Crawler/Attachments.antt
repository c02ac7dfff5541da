-- ===== src/Crawler/Attachments.antt =====
-- `SqlAlchemyNoticeWriter.write_attachment` and the readers of a file's name.
use Prim.Native.Char.{code}
use Prim.Native.String.{String, [], ◌∷◌}
use tender_phase.Prelude.{
  ℕ, Bool, false, not, ◌&&◌, Option, none, some, str_eq, ◌==◌, if◌then◌else◌, or_else, or_option,
  select, first, is_some,
}
use tender_phase.Prelude.Integers.{ℤ}
use tender_phase.Prelude.Outcome.{returns, ◌>>=◌}
use tender_phase.Prelude.Text.{as_str}
use tender_phase.Table
use tender_phase.Table.Fresh.{next_id}
use tender_phase.Crawler.Python.{Python}
use tender_phase.Crawler.Items.{Item, value_of, text_of, int_of, as_datetime}
use tender_phase.Crawler.Rows.{
  AttachmentType, notice_file, bid_file, other_file, TenderNotice, TenderAttachment, Archive,
  WriterContext, Written, attachment_id, drawn,
}
use tender_phase.Crawler.Keys.{Keys}
use tender_phase.Crawler.Sources.{in_session, no_deltas, add_stats, one_if, committed}
use tender_phase.Crawler.Documents.{document_at}
use tender_phase.Crawler.Notices.{save_notice, resolve_notice}
use tender_phase.Crawler.NoticeFields.{apply_notice_fields}
use tender_phase.Crawler.VersionNumbers.{numbered}

-- `_normalize_attachment_type`
abbrev pub normalize_attachment_type : Option String → AttachmentType
normalize_attachment_type none = notice_file
normalize_attachment_type (some t) =
    if str_eq t "bid_file" then bid_file else if str_eq t "other" then other_file else notice_file

-- What follows the last character `k` of a text, if it has one.
unfoldable pub after_last : ℕ → String → Option String
after_last k [] = none
after_last k (c ∷ s) = elim (after_last k s) [
  | some t ↦ some t
  | none ↦ if code c == k then some s else none
]

-- `s.rsplit("/", maxsplit=1)[-1]`
abbrev pub last_segment : String → String
last_segment s = or_else (after_last b'/' s) s

-- What follows the last dot, stripped; `none` without a dot or if nothing is left.
abbrev pub extension : String → Option String
extension s = as_str (after_last b'.' s)

-- A file with its three names, which are not empty.
pub record FileNames : Type 0 where
  pub url_hash : String
  pub file_url : String
  pub file_name : String

module _ (python : Python) where
  -- `_infer_attachment_file_name`
  unfoldable pub infer_file_name : Option String → Option String
  infer_file_name none = none
  infer_file_name (some url) =
      as_str (some (python.unquote (last_segment (python.urlparse_path url))))

  -- `_infer_attachment_file_ext`
  unfoldable pub infer_file_ext : (file_name file_url : String) → Option String
  infer_file_ext file_name file_url =
      elim (or_option (extension file_name)
        (extension (last_segment (python.urlparse_path file_url)))) [
          | none ↦ none
          | some t ↦ some (python.lower t)
        ]

  -- `_infer_attachment_mime_type`
  unfoldable pub infer_mime_type :
      (mime_type : Option String) (file_name file_url : String) → Option String
  infer_mime_type mime_type file_name file_url =
      or_option mime_type (or_option (python.guess_type file_name) (python.guess_type file_url))

  abbrev pub all_three : Option String → Option String → Option String → Option FileNames
  all_three (some h) (some u) (some n) = some (record { url_hash = h; file_url = u; file_name = n })
  all_three _ _ _ = none

  abbrev pub file_names : Item → Option FileNames
  file_names i =
      all_three (text_of "url_hash" i) (text_of "file_url" i)
        (or_option (text_of "file_name" i) (infer_file_name (text_of "file_url" i)))

abbrev pub version_numbered : TenderNotice → Option ℤ → Archive → Option ℕ
version_numbered n none a = none
version_numbered n (some version_no) a =
    elim (first (select (numbered n.id version_no) a.versions)) [ none ↦ none | some v ↦ some v.id ]

module _ (python : Python) (keys : Keys) where
  abbrev pub attachment_row : Item → FileNames → ℕ → TenderNotice → Archive → ℕ → TenderAttachment
  attachment_row i f source_id n a id = record {
    id = id;
    source_site_id = source_id;
    notice_id = n.id;
    notice_version_id =
        or_option (version_numbered n (int_of "notice_version_no" i) a) n.current_version_id;
    raw_document_id = elim (document_at source_id f.url_hash a) [
      | none ↦ none
      | some d ↦ some d.id
    ];
    file_name = f.file_name;
    attachment_type = normalize_attachment_type (text_of "attachment_type" i);
    file_url = f.file_url;
    url_hash = f.url_hash;
    file_hash = text_of "file_hash" i;
    storage_uri = text_of "storage_uri" i;
    mime_type = infer_mime_type python (text_of "mime_type" i) f.file_name f.file_url;
    file_ext = or_option (text_of "file_ext" i) (infer_file_ext python f.file_name f.file_url);
    file_size_bytes = int_of "file_size_bytes" i;
    published_at = as_datetime python (value_of "published_at" i);
    downloaded_at = as_datetime python (value_of "downloaded_at" i);
    is_deleted = false;
  }

  abbrev pub attachment_at : ℕ → String → Archive → Option TenderAttachment
  attachment_at source_id url_hash a =
      first
        (select (λ x. x.source_site_id == source_id && str_eq x.url_hash url_hash) a.attachments)

  -- A file that is there keeps its time of download, if the item has none, and its mark of deletion.
  abbrev pub put_attachment :
      Item → FileNames → ℕ → TenderNotice → Archive → Option TenderAttachment → Archive
  put_attachment i f source_id n a none =
      let id = next_id attachment_id a.base.is_sqlite a.next.attachments a.attachments in
      record a {
        attachments = Table.insert (attachment_row i f source_id n a id) a.attachments;
        next = record a.next { attachments = drawn a.base.is_sqlite a.next.attachments };
      }
  put_attachment i f source_id n a (some x) =
      let row = attachment_row i f source_id n a x.id in
      let kept : TenderAttachment = record row {
        downloaded_at = or_option row.downloaded_at x.downloaded_at;
        is_deleted = x.is_deleted;
      } in
      record a {
        attachments =
            Table.update_where (Table.has_id attachment_id x.id) (λ _. kept) a.attachments;
      }

  abbrev pub store_attachment :
      Item → ℕ → TenderNotice → Option (FileNames) → Archive → Written (Option Archive)
  store_attachment i source_id n none a = returns (some a)
  store_attachment i source_id n (some f) a =
      let existing = attachment_at source_id f.url_hash a in
      committed (
        add_stats (int_of "crawl_job_id" i)
          (record no_deltas {
            deduplicated_count = one_if (is_some existing);
            records_inserted = one_if (not (is_some existing));
            records_updated = one_if (is_some existing);
          })
          (put_attachment i f source_id n a existing))

  abbrev pub attachment_of_notice :
      Item → ℕ → Option (TenderNotice × Bool × Archive) → Written (Option Archive)
  attachment_of_notice i source_id none = returns none
  attachment_of_notice i source_id (some (found, created, a)) =
      let n = apply_notice_fields python keys i found in
      save_notice n a >>= store_attachment i source_id n (file_names python i)

  unfoldable pub write_attachment_at : Item → ℕ → Archive → Written (Option Archive)
  write_attachment_at i source_id a =
      resolve_notice python keys source_id i a >>= attachment_of_notice i source_id

  unfoldable pub write_attachment : Item → WriterContext → Written (Unit {0}) × WriterContext
  write_attachment raw c =
      let i = keys.normalize_attachment_item (keys.normalize_notice_item raw) in
      in_session python i (write_attachment_at i) c
