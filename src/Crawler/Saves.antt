-- ===== src/Crawler/Saves.antt =====
-- Saving and adding a notice keep the tables sound, and so do the counters of the job.
use tender_phase.Prelude.{
  ℕ, ◌<◌, suc, Bool, true, false, Option, none, some, ◌≡◌, refl, if◌then◌else◌, All, arith,
  Bool-cases, inl, inr,
}
use tender_phase.Prelude.Integers.{ℤ}
use tender_phase.Prelude.Outcome.{Outcome, returns, raises, ◌>>=◌}
use tender_phase.Model.{CrawlJob, Database, JobMetrics}
use tender_phase.Session.{Result, ok, err}
use tender_phase.Table.{has_id, update_where, insert}
use tender_phase.Table.Laws.{count-update_where-le, All-update_where, All-insert}
use tender_phase.Table.Fresh.{next_id, count-next_id, count_ids-insert, All-below-suc}
use tender_phase.Jobs.Stats.{
  MetricDeltas, all_zero, stats_found, record_stats_in_session, normalize_deltas,
}
use tender_phase.Jobs.Lifecycle.{get_job}
use tender_phase.Crawler.Rows.{TenderNotice, Archive, WriteError, notice_identity, notice_id, drawn}
use tender_phase.Jobs.Keeps.{Keeps}
use tender_phase.Jobs.Preservation.{record_stats-Keeps}
use tender_phase.Crawler.Sources.{job_number, add_stats, with_stats}
use tender_phase.Crawler.Notices.{
  has_clash, added_notice, changed_notice, insert_notice, save_notice,
}
use tender_phase.Crawler.Invariant.{InSpan, IsSound, IsSound-same}

-- What a fallible step leaves satisfies `P`, if it returns.
abbrev pub Leaves {ℓ} : {A : Type ℓ} → (A → Type 0) → Outcome WriteError A → Type 0
Leaves P (returns a) = P a
Leaves P (raises e) = Unit

pub Leaves-bind {ℓ κ} :
    {A : Type ℓ} {B : Type κ} (P : A → Type 0) (Q : B → Type 0) (m : Outcome WriteError A)
    (f : A → Outcome WriteError B)
    → Leaves P m
    → ((a : A) → P a → Leaves Q (f a))
    → Leaves Q (m >>= f)
Leaves-bind P Q (returns a) f h k = k a h
Leaves-bind P Q (raises e) f h k = tt

pub Leaves-imp {ℓ} :
    {A : Type ℓ} (P Q : A → Type 0)
    → ((a : A) → P a → Q a)
    → (m : Outcome WriteError A) → Leaves P m
    → Leaves Q m
Leaves-imp P Q f (returns a) h = f a h
Leaves-imp P Q f (raises e) h = tt

pub Leaves-if {ℓ} :
    {A : Type ℓ} (P : A → Type 0) (b : Bool) (m n : Outcome WriteError A)
    → (b ≡ true → Leaves P m)
    → (b ≡ false → Leaves P n)
    → Leaves P (if b then m else n)
Leaves-if P true m n hm hn = hm refl
Leaves-if P false m n hm hn = hn refl

module _ (a : Archive) (h : IsSound a) (n : TenderNotice) (hn : InSpan n) where
  below :
      a.base.is_sqlite ≡ false
      → All (λ m. m.id < a.next.notices) (update_where (has_id notice_id n.id) (λ _. n) a.notices)
  below e =
      All-update_where (λ m. m.id < a.next.notices) (has_id notice_id n.id) (λ _. n)
        (λ x hx hit. ground arith) a.notices (h.numbered_notices e)

  changed_notice-IsSound : IsSound (changed_notice n a)
  changed_notice-IsSound = record {
    jobs_consistent = h.jobs_consistent;
    notice_ids = λ k. ground (
      arith,
      h.notice_ids k,
      count-update_where-le (has_id notice_id k) (has_id notice_id n.id) (λ _. n)
          (λ x hit keep. ground arith) a.notices,
    );
    version_ids = h.version_ids;
    numbered_notices = below;
    numbered_versions = h.numbered_versions;
    spans =
        All-update_where InSpan (has_id notice_id n.id) (λ _. n) (λ x hx hit. hn) a.notices h.spans;
    one_current = h.one_current;
  }

  pub save_notice-IsSound : Leaves IsSound (save_notice n a)
  unfolding save_notice
  save_notice-IsSound =
      Leaves-if IsSound (has_clash n a) (raises notice_identity) (returns (changed_notice n a))
        (λ _. tt) (λ _. changed_notice-IsSound)

  module _ (fresh : n.id ≡ next_id notice_id a.base.is_sqlite a.next.notices a.notices) where
    added_below :
        a.base.is_sqlite ≡ false
        → All (λ m. m.id < drawn a.base.is_sqlite a.next.notices) (insert n a.notices)
    added_below e =
        let own : n.id ≡ a.next.notices = rw e at fresh in
        rw e (
          All-insert (λ m. m.id < suc a.next.notices) n a.notices (omega arith)
            (All-below-suc notice_id a.next.notices a.notices (h.numbered_notices e)))

    added_notice-IsSound : IsSound (added_notice n a)
    added_notice-IsSound = record {
      jobs_consistent = h.jobs_consistent;
      notice_ids =
          count_ids-insert notice_id n a.notices
            (rw fresh (
              count-next_id notice_id a.base.is_sqlite a.next.notices a.notices h.numbered_notices))
            h.notice_ids;
      version_ids = h.version_ids;
      numbered_notices = added_below;
      numbered_versions = h.numbered_versions;
      spans = All-insert InSpan n a.notices hn h.spans;
      one_current = h.one_current;
    }

    pub insert_notice-IsSound : Leaves IsSound (insert_notice n a)
    unfolding insert_notice
    insert_notice-IsSound =
        Leaves-if IsSound (has_clash n a) (raises notice_identity) (returns (added_notice n a))
          (λ _. tt) (λ _. added_notice-IsSound)

abbrev SameKind {ℓ} : {A : Type ℓ} → Database → Result (A × Database) → Type 0
SameKind db (ok (a, db')) = db'.is_sqlite ≡ db.is_sqlite
SameKind db (err e) = Unit

stats_found-SameKind :
    (k : ℕ) (d : JobMetrics) (db : Database) (o : Option CrawlJob)
    → SameKind db (stats_found k d db o)
unfolding stats_found
stats_found-SameKind k d db none = refl
stats_found-SameKind k d db (some j) = refl

counted-SameKind :
    (k : ℕ) (db : Database) (m : Result JobMetrics)
    → SameKind db
        (m >>= λ d. if all_zero d then ok (get_job k db, db) else stats_found k d db (get_job k db))
counted-SameKind k db (err e) = tt
counted-SameKind k db (ok d) = elim (Bool-cases (all_zero d)) [
  | inl nothing ↦ rw nothing refl
  | inr something ↦ rw something (stats_found-SameKind k d db (get_job k db))
]

record_stats-SameKind :
    (job_id : Option ℕ) (d : MetricDeltas) (db : Database)
    → SameKind db (record_stats_in_session job_id d db)
unfolding record_stats_in_session
record_stats-SameKind none d db = refl
record_stats-SameKind (some k) d db = counted-SameKind k db (normalize_deltas d)

with_stats-IsSound :
    (a : Archive) (r : Result (Option CrawlJob × Database))
    → IsSound a
    → Keeps a.base r
    → SameKind a.base r
    → Leaves IsSound (with_stats a r)
with_stats-IsSound a (ok (j, db)) h (c, later) kind = IsSound-same h c kind refl refl refl refl
with_stats-IsSound a (err e) h keeps kind = tt

-- The counters of the job.
pub add_stats-IsSound :
    (job_id : Option ℤ) (d : MetricDeltas) (a : Archive)
    → IsSound a
    → Leaves IsSound (add_stats job_id d a)
unfolding add_stats
add_stats-IsSound job_id d a h =
    with_stats-IsSound a (record_stats_in_session (job_number job_id) d a.base) h
      (record_stats-Keeps (job_number job_id) d a.base h.jobs_consistent)
      (record_stats-SameKind (job_number job_id) d a.base)
