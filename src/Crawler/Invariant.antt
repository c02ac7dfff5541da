-- ===== src/Crawler/Invariant.antt =====
-- What holds of the tables of the job service, of notices and versions between two calls of the writers.
use tender_phase.Prelude.{ℕ, ◌≤◌, ◌<◌, Bool, false, ◌&&◌, Option, none, some, ◌≡◌, ◌==◌, count, All}
use tender_phase.Clock.{Time}
use tender_phase.Table
use tender_phase.Jobs.Invariant.{IsConsistent}
use tender_phase.Crawler.Rows.{TenderNotice, NoticeVersion, Archive, notice_id, version_id}

-- The time of publication lies between the first and the latest one; there are all three or none.
abbrev pub Span : Option Time → Option Time → Option Time → Type 0
Span none none none = Unit
Span (some p) (some f) (some l) = (f ≤ p) × (p ≤ l)
Span _ _ _ = ⊥

abbrev pub InSpan : TenderNotice → Type 0
InSpan n = Span n.published_at n.first_published_at n.latest_published_at

abbrev pub is_current_of : ℕ → NoticeVersion → Bool
is_current_of k v = v.notice_id == k && v.is_current

pub record IsSound (a : Archive) : Type 0 where
  pub jobs_consistent : IsConsistent a.base
  pub notice_ids : (k : ℕ) → count (Table.has_id notice_id k) a.notices ≤ 1
  pub version_ids : (k : ℕ) → count (Table.has_id version_id k) a.versions ≤ 1
  pub numbered_notices : a.base.is_sqlite ≡ false → All (λ n. n.id < a.next.notices) a.notices
  pub numbered_versions : a.base.is_sqlite ≡ false → All (λ v. v.id < a.next.versions) a.versions
  pub spans : All InSpan a.notices
  pub one_current : (k : ℕ) → count (is_current_of k) a.versions ≤ 1

-- The other tables do not matter, nor does the database of the job service but for its kind.
pub IsSound-same :
    {a b : Archive}
    → IsSound a
    → IsConsistent b.base
    → b.base.is_sqlite ≡ a.base.is_sqlite
    → b.notices ≡ a.notices
    → b.versions ≡ a.versions
    → b.next.notices ≡ a.next.notices
    → b.next.versions ≡ a.next.versions
    → IsSound b
IsSound-same {a} {b} h consistent kind ns vs n v = record {
  jobs_consistent = consistent;
  notice_ids = λ k. rw ns (h.notice_ids k);
  version_ids = λ k. rw vs (h.version_ids k);
  numbered_notices = λ e. rw (ns, n) (h.numbered_notices (rw kind at e));
  numbered_versions = λ e. rw (vs, v) (h.numbered_versions (rw kind at e));
  spans = rw ns h.spans;
  one_current = λ k. rw vs (h.one_current k);
}
