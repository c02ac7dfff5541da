-- ===== src/Crawler/Current.antt =====
-- A notice has one current version at most, also after a version has been added and stored.
use tender_phase.Prelude.{
  ℕ, ◌≤◌, ◌<◌, suc, Bool, true, false, List, [], ◌∷◌, ◌≡◌, ◌==◌, count, All, arith, Bool-cases,
  if_cases, ◌⊎◌, inl, inr,
}
use mathlib.Core.Path.{subst}
use tender_phase.Table.{has_id, update_where, insert}
use tender_phase.Table.Laws.{count-update_where-le, count-insert, All-update_where, All-insert}
use tender_phase.Table.Fresh.{next_id, count-next_id, count_ids-insert, All-below-suc}
use tender_phase.Crawler.Rows.{NoticeVersion, Archive, version_id, drawn}
use tender_phase.Crawler.Versions.{is_another, retire, set_version}
use tender_phase.Crawler.VersionNumbers.{added_version}
use tender_phase.Crawler.Invariant.{is_current_of, IsSound}

abbrev saved : NoticeVersion → List NoticeVersion → List NoticeVersion
saved v vs = update_where (has_id version_id v.id) (λ _. v) vs

-- After the version has been stored as current, it alone is current among those of its notice.
stored_current :
    (v : NoticeVersion) (vs : List NoticeVersion)
    → count
        (is_current_of v.notice_id)
        (update_where (is_another v.notice_id v.id) retire (saved v vs))
      ≤ count (has_id version_id v.id) vs
unfolding update_where
stored_current v [] = omega arith
stored_current v (w ∷ vs) = ground (arith, stored_current v vs)

-- The versions of the other notices are as they were.
stored_other :
    (v : NoticeVersion) (k : ℕ) (vs : List NoticeVersion)
    → (v.notice_id == k) ≡ false
    → count (is_current_of k) (update_where (is_another v.notice_id v.id) retire (saved v vs))
      ≤ count (is_current_of k) vs
unfolding update_where
stored_other v k [] h = omega arith
stored_other v k (w ∷ vs) h = ground (arith, stored_other v k vs)

stored_past :
    (v : NoticeVersion) (k : ℕ) (vs : List NoticeVersion)
    → v.is_current ≡ false
    → count (is_current_of k) (saved v vs) ≤ count (is_current_of k) vs
stored_past v k vs h =
    count-update_where-le (is_current_of k) (has_id version_id v.id) (λ _. v)
      (λ w hit now. ground arith) vs

-- The tables after a version of the notice `m` may have been added: sound, but that a second
-- version of this notice is current until the new one has been stored, if that is to be current.
pub record IsOpen (m : ℕ) (current : Bool) (a : Archive) : Type 0 where
  pub version_ids : (k : ℕ) → count (has_id version_id k) a.versions ≤ 1
  pub numbered_versions : a.base.is_sqlite ≡ false → All (λ v. v.id < a.next.versions) a.versions
  pub almost :
      (k : ℕ) → (current ≡ false) ⊎ ((m == k) ≡ false) → count (is_current_of k) a.versions ≤ 1
  pub close :
      (vs : List NoticeVersion)
      → ((k : ℕ) → count (has_id version_id k) vs ≤ 1)
      → (a.base.is_sqlite ≡ false → All (λ v. v.id < a.next.versions) vs)
      → ((k : ℕ) → count (is_current_of k) vs ≤ 1)
      → IsSound (record a { versions = vs })

pub IsOpen-start : (m : ℕ) (current : Bool) (a : Archive) → IsSound a → IsOpen m current a
IsOpen-start m current a h = record {
  version_ids = h.version_ids;
  numbered_versions = h.numbered_versions;
  almost = λ k _. h.one_current k;
  close = λ vs ids numbered one. record {
    jobs_consistent = h.jobs_consistent;
    notice_ids = h.notice_ids;
    version_ids = ids;
    numbered_notices = h.numbered_notices;
    numbered_versions = numbered;
    spans = h.spans;
    one_current = one;
  };
}

almost_added :
    (v : NoticeVersion) (a : Archive)
    → IsSound a
    → (k : ℕ) → (v.is_current ≡ false) ⊎ ((v.notice_id == k) ≡ false)
    → count (is_current_of k) (insert v a.versions) ≤ 1
almost_added v a h k (inl past) =
    ground (arith, count-insert (is_current_of k) v a.versions, h.one_current k)
almost_added v a h k (inr other) =
    ground (arith, count-insert (is_current_of k) v a.versions, h.one_current k)

module _ (v : NoticeVersion) (a : Archive) (h : IsSound a)
    (fresh : v.id ≡ next_id version_id a.base.is_sqlite a.next.versions a.versions) where
  versions_below :
      a.base.is_sqlite ≡ false
      → All (λ w. w.id < drawn a.base.is_sqlite a.next.versions) (insert v a.versions)
  versions_below e =
      let own : v.id ≡ a.next.versions = rw e at fresh in
      rw e (
        All-insert (λ w. w.id < suc a.next.versions) v a.versions (omega arith)
          (All-below-suc version_id a.next.versions a.versions (h.numbered_versions e)))

  pub added_version-IsOpen : IsOpen v.notice_id v.is_current (added_version v a)
  added_version-IsOpen = record {
    version_ids =
        count_ids-insert version_id v a.versions
          (rw fresh (
            count-next_id version_id a.base.is_sqlite a.next.versions a.versions
              h.numbered_versions))
          h.version_ids;
    numbered_versions = versions_below;
    almost = almost_added v a h;
    close = λ vs ids numbered one. record {
      jobs_consistent = h.jobs_consistent;
      notice_ids = h.notice_ids;
      version_ids = ids;
      numbered_notices = h.numbered_notices;
      numbered_versions = numbered;
      spans = h.spans;
      one_current = one;
    };
  }

saved_ids :
    (v : NoticeVersion) (vs : List NoticeVersion) (k : ℕ)
    → count (has_id version_id k) (saved v vs) ≤ count (has_id version_id k) vs
saved_ids v vs k =
    count-update_where-le (has_id version_id k) (has_id version_id v.id) (λ _. v)
      (λ w hit own. ground arith) vs

saved_below :
    (v : NoticeVersion) (n : ℕ) (vs : List NoticeVersion)
    → All (λ w. w.id < n) vs
    → All (λ w. w.id < n) (saved v vs)
saved_below v n vs h =
    All-update_where (λ w. w.id < n) (has_id version_id v.id) (λ _. v) (λ w hw hit. ground arith) vs
      h

module _ (v : NoticeVersion) (a : Archive) (open_ : IsOpen v.notice_id v.is_current a) where
  retired_one :
      v.is_current ≡ true
      → (k : ℕ)
      → count
          (is_current_of k)
          (update_where (is_another v.notice_id v.id) retire (saved v a.versions))
        ≤ 1
  retired_one now k = elim (Bool-cases (v.notice_id == k)) [
    | inl hit ↦
        let e : v.notice_id ≡ k = ground arith in
        subst
          (λ m.
            count (is_current_of m)
              (update_where (is_another v.notice_id v.id) retire (saved v a.versions))
            ≤ 1)
          e (omega (arith, stored_current v a.versions, open_.version_ids v.id))
    | inr miss ↦ omega (arith, stored_other v k a.versions miss, open_.almost k (inr miss))
  ]

  -- When the version is stored the tables are sound again.
  pub set_version-IsSound : IsSound (record a { versions = set_version v a.versions })
  unfolding set_version
  set_version-IsSound =
      if_cases (λ vs. IsSound (record a { versions = vs })) v.is_current
        (update_where (is_another v.notice_id v.id) retire (saved v a.versions))
        (saved v a.versions)
        (λ now.
          open_.close (update_where (is_another v.notice_id v.id) retire (saved v a.versions))
            (λ k. omega (
              arith,
              count-update_where-le (has_id version_id k) (is_another v.notice_id v.id) retire
                  (λ w hit own. own) (saved v a.versions),
              saved_ids v a.versions k,
              open_.version_ids k,
            ))
            (λ e.
              All-update_where (λ w. w.id < a.next.versions) (is_another v.notice_id v.id) retire
                (λ w hw hit. hw) (saved v a.versions)
                (saved_below v a.next.versions a.versions (open_.numbered_versions e)))
            (retired_one now))
        (λ past.
          open_.close (saved v a.versions)
            (λ k. omega (arith, saved_ids v a.versions k, open_.version_ids k))
            (λ e. saved_below v a.next.versions a.versions (open_.numbered_versions e))
            (λ k. omega (arith, stored_past v k a.versions past, open_.almost k (inl past))))
