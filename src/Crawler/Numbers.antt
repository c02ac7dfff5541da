-- ===== src/Crawler/Numbers.antt =====
-- The number of a new version is free, so that its INSERT never violates a constraint.
use tender_phase.Prelude.{
  ℕ, suc, zero, Bool, true, false, ◌&&◌, ◌||◌, String, Option, none, some, List, [], ◌∷◌, ◌≡◌, refl,
  ap, select, first, count, ◌==◌, if◌then◌else◌, Option-cases, Bool-cases, inl, inr, arith,
}
use tender_phase.Prelude.Integers.{ℤ, pos, negsuc, less}
use tender_phase.Prelude.Outcome.{returns, ◌>>=◌}
use mathlib.Core.Path.{subst}
use tender_phase.Table.Fresh.{next_id}
use tender_phase.Table.Membership.{count-select-none}
use tender_phase.Crawler.Python.{Python}
use tender_phase.Crawler.Items.{Item, text_of, int_of}
use tender_phase.Crawler.Rows.{NoticeVersion, Archive, version_id}
use tender_phase.Crawler.Versions.{
  new_version, created_version, kept_or_created, resolve_notice_version,
}
use tender_phase.Crawler.VersionNumbers.{
  same_int, succ_int, or_one, content_of, numbered, greatest, max_version_no, next_version_no,
  added_version, insert_version, Choice, keep, number, of_same_content, choose_numbered,
  version_of_content, choose_unless, choose_version,
}

less_succ : (a m : ℤ) → less m a ≡ false → same_int a (succ_int m) ≡ false
unfolding less
less_succ (pos a) (pos m) h = ground arith
less_succ (pos a) (negsuc zero) h = absurd (cc)
less_succ (pos a) (negsuc (suc m)) h = refl
less_succ (negsuc a) (pos m) h = refl
less_succ (negsuc a) (negsuc zero) h = refl
less_succ (negsuc a) (negsuc (suc m)) h = ground arith

-- No version of the notice is above `m`.
abbrev not_above : ℕ → ℤ → NoticeVersion → Bool
not_above k m v = v.notice_id == k && less m v.version_no

less_trans : (a b c : ℤ) → less a b ≡ false → less b c ≡ false → less a c ≡ false
unfolding less
less_trans (pos a) (pos b) (pos c) h g = ground arith
less_trans (pos a) (pos b) (negsuc c) h g = refl
less_trans (pos a) (negsuc b) (pos c) h g = absurd (cc)
less_trans (pos a) (negsuc b) (negsuc c) h g = refl
less_trans (negsuc a) (pos b) c h g = absurd (cc)
less_trans (negsuc a) (negsuc b) (pos c) h g = absurd (cc)
less_trans (negsuc a) (negsuc b) (negsuc c) h g = ground arith

less_self : (a : ℤ) → less a a ≡ false
unfolding less
less_self (pos a) = ground arith
less_self (negsuc a) = ground arith

less_asym : (a b : ℤ) → less a b ≡ true → less b a ≡ false
unfolding less
less_asym (pos a) (pos b) h = ground arith
less_asym (pos a) (negsuc b) h = absurd (cc)
less_asym (negsuc a) (pos b) h = refl
less_asym (negsuc a) (negsuc b) h = ground arith

above_mono :
    (k : ℕ) (m n : ℤ) (vs : List NoticeVersion)
    → less n m ≡ false
    → count (not_above k m) vs ≡ 0
    → count (not_above k n) vs ≡ 0
above_mono k m n [] h z = refl
above_mono k m n (v ∷ vs) h z = ground (arith, above_mono k m n vs h, less_trans n m v.version_no h)

-- None of the numbers is above the greatest.
head_above :
    (k : ℕ) (v : NoticeVersion) (n m : ℤ) (vs : List NoticeVersion)
    → count (not_above k n) vs ≡ 0
    → some (greatest v.version_no (some n)) ≡ some m
    → count (not_above k m) (v ∷ vs) ≡ 0
head_above k v n m vs z h = elim (Bool-cases (less v.version_no n)) [
  | inl below ↦
      let e : n ≡ m = ground arith in
      subst (λ x. count (not_above k x) (v ∷ vs) ≡ 0) e
        (ground (arith, less_asym v.version_no n below))
  | inr above ↦
      let e : v.version_no ≡ m = ground arith in
      subst (λ x. count (not_above k x) (v ∷ vs) ≡ 0) e
        (ground (arith, less_self v.version_no, above_mono k n v.version_no vs above z))
]

max_none :
    (k : ℕ) (n : ℤ) (vs : List NoticeVersion)
    → max_version_no k vs ≡ none
    → count (not_above k n) vs ≡ 0
unfolding max_version_no
max_none k n [] h = refl
max_none k n (v ∷ vs) h = elim (Bool-cases (v.notice_id == k)) [
  | inl hit ↦ absurd (ground arith)
  | inr miss ↦ ground (arith, max_none k n vs)
]

above_step :
    (k : ℕ) (v : NoticeVersion) (vs : List NoticeVersion) (o : Option ℤ)
    → max_version_no k vs ≡ o
    → ((n : ℤ) → o ≡ some n → count (not_above k n) vs ≡ 0)
    → (m : ℤ) → (if v.notice_id == k then some (greatest v.version_no o) else o) ≡ some m
    → count (not_above k m) (v ∷ vs) ≡ 0
above_step k v vs none e some_above m h = elim (Bool-cases (v.notice_id == k)) [
  | inl hit ↦ ground (arith, max_none k m vs e, less_self v.version_no)
  | inr miss ↦ absurd (ground arith)
]
above_step k v vs (some n) e some_above m h = elim (Bool-cases (v.notice_id == k)) [
  | inl hit ↦ head_above k v n m vs (some_above n refl) (rw hit at h)
  | inr miss ↦ let same : some n ≡ some m = rw miss at h in ground (arith, some_above m same)
]

max_above :
    (k : ℕ) (vs : List NoticeVersion) (m : ℤ)
    → max_version_no k vs ≡ some m
    → count (not_above k m) vs ≡ 0
unfolding max_version_no
max_above k [] m h = refl
max_above k (v ∷ vs) m h = above_step k v vs (max_version_no k vs) refl (max_above k vs) m h

above_free :
    (k : ℕ) (m : ℤ) (vs : List NoticeVersion)
    → count (not_above k m) vs ≡ 0
    → count (numbered k (succ_int m)) vs ≡ 0
above_free k m [] z = refl
above_free k m (v ∷ vs) z = ground (arith, above_free k m vs, less_succ v.version_no m)

next_free : (k : ℕ) (vs : List NoticeVersion) → count (numbered k (next_version_no k vs)) vs ≡ 0
next_free k vs = elim (Option-cases (max_version_no k vs)) [
  | inl e ↦ rw e (above_free k (pos 0) vs (max_none k (pos 0) vs e))
  | inr (m, e) ↦ rw e (above_free k m vs (max_above k vs m e))
]

-- A version is there, or the new number is free and so is the content.
choose_numbered-free :
    (k : ℕ) (content_hash : Option String) (requested n : ℤ) (vs : List NoticeVersion)
    (o : Option NoticeVersion)
    → first (select (numbered k requested) vs) ≡ o
    → choose_numbered k content_hash requested vs o ≡ number n
    → count (numbered k n) vs ≡ 0
choose_numbered-free k c requested n vs none e h =
    let same : requested ≡ n = cc in
    subst (λ x. count (numbered k x) vs ≡ 0) same (count-select-none (numbered k requested) vs e)
choose_numbered-free k c requested n vs (some v) e h = elim (Bool-cases (of_same_content c v)) [
  | inl same ↦ absurd (ground arith)
  | inr other ↦
      let same : next_version_no k vs ≡ n = ground arith in
      subst (λ x. count (numbered k x) vs ≡ 0) same (next_free k vs)
]

abbrev IsFree : ℕ → Option String → ℤ → List NoticeVersion → Type 0
IsFree k content_hash n vs =
    (count (numbered k n) vs ≡ 0) × (version_of_content k content_hash vs ≡ none)

choose_unless-IsFree :
    (k : ℕ) (content_hash : Option String) (requested n : ℤ) (vs : List NoticeVersion)
    (o : Option NoticeVersion)
    → version_of_content k content_hash vs ≡ o
    → choose_unless k content_hash requested vs o ≡ number n
    → IsFree k content_hash n vs
choose_unless-IsFree k c requested n vs (some v) e h = absurd (cc)
choose_unless-IsFree k c requested n vs none e h =
    (choose_numbered-free k c requested n vs (first (select (numbered k requested) vs)) refl h, e)

count_either :
    (p q : NoticeVersion → Bool) (vs : List NoticeVersion)
    → count p vs ≡ 0
    → count q vs ≡ 0
    → count (λ v. p v || q v) vs ≡ 0
count_either p q [] hp hq = refl
count_either p q (v ∷ vs) hp hq = ground (arith, count_either p q vs)

module _ (python : Python) (k : ℕ) (i : Item) (a : Archive) where
  abbrev Returns : Choice → Type 0
  Returns c =
      (o : Option (NoticeVersion × Bool × Archive)) × (kept_or_created python k i a c ≡ returns o)

  insert_version-free :
      (v : NoticeVersion)
      → IsFree v.notice_id (some v.content_hash) v.version_no a.versions
      → insert_version v a ≡ returns (added_version v a)
  unfolding insert_version
  insert_version-free v (free, fresh) =
      rw
        (count_either (content_of v.notice_id v.content_hash) (numbered v.notice_id v.version_no)
          a.versions (count-select-none (content_of v.notice_id v.content_hash) a.versions fresh)
          free)
        refl

  created-Returns :
      (n : ℤ) (title content_hash : Option String)
      → IsFree k content_hash n a.versions
      → (o : Option (NoticeVersion × Bool × Archive)) × (created_version python k i a n title
            content_hash
          ≡ returns o)
  created-Returns n none c free = (none, refl)
  created-Returns n (some t) none free = (none, refl)
  created-Returns n (some t) (some c) free =
      let v =
        new_version python (next_id version_id a.base.is_sqlite a.next.versions a.versions) k n t c
          i in
      (
        some (v, true, added_version v a),
        ap (λ m. m >>= λ a'. returns (some (v, true, a'))) (insert_version-free v free),
      )

  chosen-Returns :
      (c : Choice)
      → choose_version k (text_of "content_hash" i) (or_one (int_of "version_no" i)) a.versions ≡ c
      → Returns c
  unfolding choose_version
  chosen-Returns (keep v) e = (some (v, false, a), refl)
  chosen-Returns (number n) e = created-Returns n (text_of "title" i) (text_of "content_hash" i) (
      choose_unless-IsFree k (text_of "content_hash" i) (or_one (int_of "version_no" i)) n
        a.versions (version_of_content k (text_of "content_hash" i) a.versions) refl e)

-- Whatever versions a notice has, and whatever number an item asks for, the number and the content
-- of a version that `_resolve_notice_version` adds are free: it never raises.
pub resolve_notice_version_returns :
    (python : Python) (k : ℕ) (i : Item) (a : Archive)
    → (o : Option (NoticeVersion × Bool × Archive)) × (resolve_notice_version python k i a
        ≡ returns o)
unfolding resolve_notice_version
resolve_notice_version_returns python k i a =
    chosen-Returns python k i a
      (choose_version k (text_of "content_hash" i) (or_one (int_of "version_no" i)) a.versions) refl
