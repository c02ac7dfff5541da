-- ===== src/Crawler/Found.antt =====
-- `_resolve_notice` and `_resolve_notice_version`: what they return and what they leave.
use tender_phase.Prelude.{
  ℕ, Bool, true, String, Option, none, some, List, [], ◌∷◌, ◌≡◌, refl, select, first, All,
  Bool-cases, inl, inr, or_option, ◌==◌, arith,
}
use tender_phase.Prelude.Integers.{ℤ}
use tender_phase.Prelude.Outcome.{returns, raises}
use tender_phase.Clock.{Time}
use tender_phase.Table.Fresh.{next_id}
use tender_phase.Crawler.Python.{Python}
use tender_phase.Crawler.Items.{Item, value_of, text_of, int_of, as_datetime, as_bool}
use tender_phase.Crawler.Rows.{
  TenderNotice, NoticeVersion, Archive, notice_id, version_id, version_identity,
}
use tender_phase.Crawler.Keys.{Keys}
use tender_phase.Crawler.Notices.{created_notice, found_or_created, resolve_notice, insert_notice}
use tender_phase.Crawler.NoticeFields.{
  notice_by, in_day, matches, similar_on, find_notice_by_high_similarity, find_notice, new_notice,
}
use tender_phase.Crawler.Versions.{
  new_version, created_version, kept_or_created, resolve_notice_version,
}
use tender_phase.Crawler.VersionNumbers.{
  Choice, keep, number, choose_version, or_one, is_taken, added_version, insert_version,
}
use tender_phase.Crawler.Invariant.{InSpan, IsSound}
use tender_phase.Crawler.Spans.{Span-same}
use tender_phase.Crawler.Saves.{Leaves, Leaves-bind, Leaves-if, insert_notice-IsSound}
use tender_phase.Crawler.Current.{IsOpen, IsOpen-start, added_version-IsOpen}

module _ {A : Type 0} (P : A → Type 0) where
  abbrev pub Holds : Option A → Type 0
  Holds none = Unit
  Holds (some a) = P a

  Holds-or_option : (a b : Option A) → Holds a → Holds b → Holds (or_option a b)
  Holds-or_option none b ha hb = hb
  Holds-or_option (some n) b ha hb = ha

  All-select : (p : A → Bool) (xs : List A) → All (λ x. p x ≡ true → P x) xs → All P (select p xs)
  All-select p [] h = tt
  All-select p (x ∷ xs) (hx, hxs) = elim (Bool-cases (p x)) [
    | inl hit ↦ rw hit (hx hit, All-select p xs hxs)
    | inr miss ↦ rw miss (All-select p xs hxs)
  ]

  Holds-first : (xs : List A) → All P xs → Holds (first xs)
  Holds-first [] h = tt
  Holds-first (x ∷ xs) (hx, hxs) = hx

pub All-imp :
    {A : Type 0} {P Q : A → Type 0} → ((x : A) → P x → Q x) → (xs : List A) → All P xs → All Q xs
All-imp f [] h = tt
All-imp f (x ∷ xs) (hx, hxs) = (f x hx, All-imp f xs hxs)

-- A notice that is found is one of the table and of the source.
module _ (P : TenderNotice → Type 0) (source_id : ℕ) (ns : List TenderNotice)
    (all : All (λ n. (n.source_site_id == source_id) ≡ true → P n) ns) where
  Holds-by :
      (column : TenderNotice → Option String) (t : Option String)
      → Holds P (notice_by column source_id t ns)
  unfolding notice_by
  Holds-by column none = tt
  Holds-by column (some t) =
      Holds-first P (select _ ns)
        (All-select P _ ns (All-imp (λ n h both. h (ground arith)) ns all))

  module _ (python : Python) (keys : Keys) (i : Item) where
    in_day-source :
        (day_start : Option Time) (n : TenderNotice)
        → in_day source_id day_start n ≡ true
        → (n.source_site_id == source_id) ≡ true
    in_day-source none n hit = absurd (cc)
    in_day-source (some t) n hit = ground arith

    of_day :
        (day_start : Option Time) (title : String)
        → Holds P (
            first (
              select (matches python keys i (some title)) (select (in_day source_id day_start) ns)))
    of_day day_start title = Holds-first P _ (
        All-select P _ (select (in_day source_id day_start) ns) (
          All-imp (λ n h hit. h) _
            (All-select P _ ns (All-imp (λ n h hit. h (in_day-source day_start n hit)) ns all))))

    Holds-similar_on :
        (title date : Option String) → Holds P (similar_on python keys source_id i title date ns)
    Holds-similar_on none none = tt
    Holds-similar_on none (some d) = tt
    Holds-similar_on (some t) none = tt
    Holds-similar_on (some t) (some d) = of_day _ t

    pub Holds-find_notice : Holds P (find_notice python keys source_id i ns)
    unfolding find_notice find_notice_by_high_similarity
    Holds-find_notice = Holds-or_option P _ _ (Holds-by _ _) (
        Holds-or_option P _ _ (Holds-by _ _) (
          Holds-or_option P _ _ (Holds-by _ _)
            (Holds-or_option P _ _ (Holds-by _ _) (Holds-similar_on _ _))))

-- A notice in order, in sound tables.
abbrev pub Resolved : Option (TenderNotice × Bool × Archive) → Type 0
Resolved none = Unit
Resolved (some (n, created, a)) = InSpan n × IsSound a

module _ (python : Python) (keys : Keys) (source_id : ℕ) (i : Item) (a : Archive)
    (h : IsSound a) where
  created_notice-Resolved :
      (title : Option String) → Leaves Resolved (created_notice python keys source_id i a title)
  created_notice-Resolved none = tt
  created_notice-Resolved (some title) =
      let n =
        new_notice python keys (next_id notice_id a.base.is_sqlite a.next.notices a.notices)
          source_id title i in
      let ordered = Span-same (as_datetime python (value_of "published_at" i)) in
      Leaves-bind IsSound Resolved (insert_notice n a) _ (insert_notice-IsSound a h n ordered refl)
        (λ a' sound. (ordered, sound))

  found_or_created-Resolved :
      (o : Option TenderNotice)
      → Holds InSpan o
      → Leaves Resolved (found_or_created python keys source_id i a o)
  found_or_created-Resolved none ho = created_notice-Resolved (text_of "title" i)
  found_or_created-Resolved (some n) ho = (ho, h)

  pub resolve_notice-Resolved : Leaves Resolved (resolve_notice python keys source_id i a)
  unfolding resolve_notice
  resolve_notice-Resolved =
      found_or_created-Resolved (find_notice python keys source_id i a.notices) (
        Holds-find_notice InSpan source_id a.notices (All-imp (λ n hn own. hn) a.notices h.spans)
          python keys i)

-- The version may be the second current one until it is stored.
abbrev pub Opened : Bool → Option (NoticeVersion × Bool × Archive) → Type 0
Opened current none = Unit
Opened current (some (v, created, a)) = IsOpen v.notice_id current a

module _ (python : Python) (k : ℕ) (i : Item) (a : Archive) (h : IsSound a) where
  abbrev wanted : Bool
  wanted = as_bool (value_of "is_current" i) true

  created_version-Opened :
      (n : ℤ) (title content_hash : Option String)
      → Leaves (Opened wanted) (created_version python k i a n title content_hash)
  unfolding insert_version
  created_version-Opened n none c = tt
  created_version-Opened n (some t) none = tt
  created_version-Opened n (some t) (some c) =
      let v =
        new_version python (next_id version_id a.base.is_sqlite a.next.versions a.versions) k n t c
          i in
      Leaves-bind (IsOpen k wanted) (Opened wanted) (insert_version v a) _
        (Leaves-if (IsOpen k wanted) (is_taken v a) (raises version_identity)
          (returns (added_version v a)) (λ _. tt) (λ _. added_version-IsOpen v a h refl))
        (λ a' opened. opened)

  kept_or_created-Opened : (c : Choice) → Leaves (Opened wanted) (kept_or_created python k i a c)
  kept_or_created-Opened (keep v) = IsOpen-start v.notice_id wanted a h
  kept_or_created-Opened (number n) =
      created_version-Opened n (text_of "title" i) (text_of "content_hash" i)

  pub resolve_notice_version-Opened : Leaves (Opened wanted) (resolve_notice_version python k i a)
  unfolding resolve_notice_version
  resolve_notice_version-Opened =
      kept_or_created-Opened
        (choose_version k (text_of "content_hash" i) (or_one (int_of "version_no" i)) a.versions)
