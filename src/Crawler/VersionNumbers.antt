-- ===== src/Crawler/VersionNumbers.antt =====
-- How `_resolve_notice_version` chooses a version of a notice, or the number of a new one.
use tender_phase.Prelude.{
  ℕ, suc, zero, String, Bool, true, false, ◌&&◌, ◌||◌, Option, none, some, List, [], ◌∷◌, str_eq,
  ltb, ◌==◌, if◌then◌else◌, or_else, select, first, count,
}
use tender_phase.Prelude.Integers.{ℤ, pos, negsuc, less}
use tender_phase.Prelude.Outcome.{returns, raises}
use tender_phase.Table
use tender_phase.Crawler.Rows.{NoticeVersion, Archive, Written, version_identity, drawn}

-- `a == b` and `a + 1`
abbrev pub same_int : ℤ → ℤ → Bool
same_int (pos m) (pos n) = m == n
same_int (pos m) (negsuc n) = false
same_int (negsuc m) (pos n) = false
same_int (negsuc m) (negsuc n) = m == n

abbrev pub succ_int : ℤ → ℤ
succ_int (pos n) = pos (suc n)
succ_int (negsuc zero) = pos 0
succ_int (negsuc (suc n)) = negsuc n

abbrev pub or_one : Option ℤ → ℤ
or_one none = pos 1
or_one (some n) = if same_int n (pos 0) then pos 1 else n

abbrev pub content_of : ℕ → String → NoticeVersion → Bool
content_of k content_hash v = v.notice_id == k && str_eq v.content_hash content_hash

abbrev pub numbered : ℕ → ℤ → NoticeVersion → Bool
numbered k n v = v.notice_id == k && same_int v.version_no n

abbrev pub greatest : ℤ → Option ℤ → ℤ
greatest a none = a
greatest a (some b) = if less a b then b else a

-- `SELECT max(version_no) WHERE notice_id = k`
unfoldable pub max_version_no : ℕ → List NoticeVersion → Option ℤ
max_version_no k [] = none
max_version_no k (v ∷ vs) =
    let m = max_version_no k vs in if v.notice_id == k then some (greatest v.version_no m) else m

abbrev pub next_version_no : ℕ → List NoticeVersion → ℤ
next_version_no k vs = succ_int (or_else (max_version_no k vs) (pos 0))

-- The unique constraints of `notice_version`.
abbrev pub is_taken : NoticeVersion → Archive → Bool
is_taken v a = ltb 0 (
    count (λ w. content_of v.notice_id v.content_hash w || numbered v.notice_id v.version_no w)
      a.versions)

abbrev pub added_version : NoticeVersion → Archive → Archive
added_version v a = record a {
  versions = Table.insert v a.versions;
  next = record a.next { versions = drawn a.base.is_sqlite a.next.versions };
}

unfoldable pub insert_version : NoticeVersion → Archive → Written Archive
insert_version v a = if is_taken v a then raises version_identity else returns (added_version v a)

-- What `_resolve_notice_version` decides: a version that is there, or the number of a new one.
pub data Choice : Type 0 where
  keep : NoticeVersion → Choice
  number : ℤ → Choice

abbrev pub of_same_content : Option String → NoticeVersion → Bool
of_same_content none v = true
of_same_content (some content_hash) v = str_eq v.content_hash content_hash

abbrev pub choose_numbered :
    ℕ → Option String → ℤ → List NoticeVersion → Option NoticeVersion → Choice
choose_numbered k content_hash requested vs none = number requested
choose_numbered k content_hash requested vs (some v) =
    if of_same_content content_hash v then keep v else number (next_version_no k vs)

abbrev pub version_of_content : ℕ → Option String → List NoticeVersion → Option NoticeVersion
version_of_content k none vs = none
version_of_content k (some content_hash) vs = first (select (content_of k content_hash) vs)

abbrev pub choose_unless :
    ℕ → Option String → ℤ → List NoticeVersion → Option NoticeVersion → Choice
choose_unless k content_hash requested vs (some v) = keep v
choose_unless k content_hash requested vs none =
    choose_numbered k content_hash requested vs (first (select (numbered k requested) vs))

unfoldable pub choose_version : ℕ → Option String → ℤ → List NoticeVersion → Choice
choose_version k content_hash requested vs =
    choose_unless k content_hash requested vs (version_of_content k content_hash vs)
