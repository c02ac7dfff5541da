-- ===== src/Crawler/Settled.antt =====
-- What `write_notice` leaves, by which a second call finds the notice.
use tender_phase.Prelude.{
  ℕ, suc, ◌<◌, Bool, true, ◌&&◌, String, Option, none, some, List, [], ◌∷◌, ◌≡◌, refl, ap, ◌∙◌,
  arith, select, first, count, All, length, ◌==◌, ==_iff, eq_iff, or_option, is_some,
}
use tender_phase.Prelude.Integers.{ℤ}
use tender_phase.Prelude.Outcome.{returns, raises, ◌>>=◌}
use tender_phase.Clock.{Time}
use tender_phase.Model.{CrawlJob, Database}
use tender_phase.Session.{Result, ok, err}
use tender_phase.Table.{has_id, update_where, insert}
use tender_phase.Table.Fresh.{next_id}
use tender_phase.Jobs.Stats.{MetricDeltas, record_stats_in_session}
use tender_phase.Crawler.Python.{Python}
use tender_phase.Crawler.Items.{Item, value_of, text_of, int_of, as_datetime}
use tender_phase.Crawler.Rows.{TenderNotice, Archive, Written, notice_identity, is_text, notice_id}
use tender_phase.Crawler.Keys.{Keys}
use tender_phase.Crawler.Sources.{job_number, with_stats, add_stats, committed}
use tender_phase.Crawler.Notices.{
  has_clash, added_notice, changed_notice, insert_notice, save_notice, created_notice,
  found_or_created, resolve_notice, exists_notice_version, notice_deltas, store_notice,
  write_notice_at,
}
use tender_phase.Crawler.NoticeFields.{
  widen, set_published, apply_texts, apply_notice_fields, find_notice, new_notice,
}
use tender_phase.Crawler.Saves.{Leaves, Leaves-bind, Leaves-if}
use tender_phase.Crawler.Found.{Holds, Holds-find_notice, All-imp}

-- The counters leave the tables of notices and versions alone.
abbrev pub SameTables : Archive → Archive → Type 0
SameTables a a' = (a'.notices ≡ a.notices) × (a'.versions ≡ a.versions)

with_stats-SameTables :
    (a : Archive) (r : Result (Option CrawlJob × Database)) → Leaves (SameTables a) (with_stats a r)
with_stats-SameTables a (ok (j, db)) = (refl, refl)
with_stats-SameTables a (err e) = tt

pub add_stats-SameTables :
    (job_id : Option ℤ) (d : MetricDeltas) (a : Archive)
    → Leaves (SameTables a) (add_stats job_id d a)
unfolding add_stats
add_stats-SameTables job_id d a =
    with_stats-SameTables a (record_stats_in_session (job_number job_id) d a.base)

-- What holds after a step still holds, in some form, after the counters and the commit.
pub counted :
    (P : Archive → Type 0) (Q : Option Archive → Type 0) (m : Written Archive) (job_id : Option ℤ)
    (d : MetricDeltas)
    → Leaves P m
    → ((a b : Archive) → P a → SameTables a b → Q (some b))
    → Leaves Q (committed (m >>= λ a. add_stats job_id d a))
counted P Q (raises e) job_id d h f = tt
counted P Q (returns a) job_id d h f =
    Leaves-bind (SameTables a) Q (add_stats job_id d a) _ (add_stats-SameTables job_id d a)
      (λ b same. f a b h same)

-- The notice of a source with a given key.
abbrev pub keyed : ℕ → String → TenderNotice → Bool
keyed s k n = n.source_site_id == s && is_text n.source_duplicate_key k

keyed_saved :
    (s : ℕ) (k : String) (n : TenderNotice) (ns : List TenderNotice)
    → keyed s k n ≡ true
    → 0 < count (has_id notice_id n.id) ns
    → 0 < count (keyed s k) (update_where (has_id notice_id n.id) (λ _. n) ns)
unfolding update_where
keyed_saved s k n [] hk h = absurd (omega arith)
keyed_saved s k n (m ∷ ns) hk h = ground (arith, keyed_saved s k n ns)

pub keyed_found :
    (s : ℕ) (k : String) (ns : List TenderNotice)
    → 0 < count (keyed s k) ns
    → is_some (first (select (keyed s k) ns)) ≡ true
keyed_found s k [] h = absurd (omega arith)
keyed_found s k (n ∷ ns) h = ground (arith, keyed_found s k ns)

pub length-saved :
    (test : TenderNotice → Bool) (change : TenderNotice → TenderNotice) (ns : List TenderNotice)
    → length (update_where test change ns) ≡ length ns
unfolding update_where
length-saved test change [] = refl
length-saved test change (n ∷ ns) = ap suc (length-saved test change ns)

count_inserted :
    (n : TenderNotice) (ns : List TenderNotice) → 0 < count (has_id notice_id n.id) (insert n ns)
unfolding insert
count_inserted n [] = ground arith
count_inserted n (m ∷ ns) = omega (arith, count_inserted n ns)

-- Every row is in its table.
All-listed : (ns : List TenderNotice) → All (λ n. 0 < count (has_id notice_id n.id) ns) ns
All-listed [] = tt
All-listed (n ∷ ns) = (
  ground arith,
  All-imp (λ m (h : 0 < count (has_id notice_id m.id) ns). omega (arith, h)) ns (All-listed ns),
)

set_published-id : (d : Option Time) (n : TenderNotice) → (set_published d n).id ≡ n.id
unfolding set_published widen
set_published-id none n = refl
set_published-id (some d) n = refl

set_published-keyed :
    (s : ℕ) (k : String) (d : Option Time) (n : TenderNotice)
    → keyed s k (set_published d n) ≡ keyed s k n
unfolding set_published widen
set_published-keyed s k none n = refl
set_published-keyed s k (some d) n = refl

exists-same :
    (s : ℕ) (dedup_key source_duplicate_key content_hash : Option String) (a a' : Archive)
    → a'.notices ≡ a.notices
    → a'.versions ≡ a.versions
    → exists_notice_version s dedup_key source_duplicate_key content_hash a'
      ≡ exists_notice_version s dedup_key source_duplicate_key content_hash a
unfolding exists_notice_version
exists-same s d k none a a' ns vs = refl
exists-same s d k (some h) a a' ns vs = rw (ns, vs) refl

-- A notice of the source that has a row.
abbrev IsRow : ℕ → TenderNotice → Archive → Type 0
IsRow s n a = (n.source_site_id ≡ s) × (0 < count (has_id notice_id n.id) a.notices)

abbrev IsRowOf : Item → ℕ → Option (TenderNotice × Bool × Archive) → Type 0
IsRowOf i s none = text_of "title" i ≡ none
IsRowOf i s (some (n, created, a)) = IsRow s n a

module _ (python : Python) (keys : Keys) (s : ℕ) (i : Item) where
  insert_notice-IsRow :
      (n : TenderNotice) (a : Archive)
      → Leaves (λ a'. 0 < count (has_id notice_id n.id) a'.notices) (insert_notice n a)
  unfolding insert_notice
  insert_notice-IsRow n a =
      Leaves-if _ (has_clash n a) (raises notice_identity) (returns (added_notice n a)) (λ _. tt)
        (λ _. count_inserted n a.notices)

  created_notice-IsRow :
      (a : Archive) (title : Option String)
      → text_of "title" i ≡ title
      → Leaves (IsRowOf i s) (created_notice python keys s i a title)
  created_notice-IsRow a none e = e
  created_notice-IsRow a (some title) e =
      let n =
        new_notice python keys (next_id notice_id a.base.is_sqlite a.next.notices a.notices) s title
          i in
      Leaves-bind _ (IsRowOf i s) (insert_notice n a) _ (insert_notice-IsRow n a)
        (λ a' row. (refl, row))

  found_or_created-IsRow :
      (a : Archive) (o : Option TenderNotice)
      → Holds (λ n. IsRow s n a) o
      → Leaves (IsRowOf i s) (found_or_created python keys s i a o)
  found_or_created-IsRow a none h = created_notice-IsRow a (text_of "title" i) refl
  found_or_created-IsRow a (some n) h = h

  resolve_notice-IsRow : (a : Archive) → Leaves (IsRowOf i s) (resolve_notice python keys s i a)
  unfolding resolve_notice
  resolve_notice-IsRow a = found_or_created-IsRow a (find_notice python keys s i a.notices) (
      Holds-find_notice (λ n. IsRow s n a) s a.notices
        (All-imp (λ n listed own. ((==_iff n.source_site_id s).0 own, listed)) a.notices
          (All-listed a.notices))
        python keys i)

  texts-keyed :
      (n : TenderNotice) (k : String)
      → text_of "source_duplicate_key" i ≡ some k
      → n.source_site_id ≡ s
      → keyed s k (apply_texts python keys i n) ≡ true
  texts-keyed n k hk hs = rw hk (ground (arith, (eq_iff k k).1 refl))

  applied-keyed :
      (n : TenderNotice) (k : String)
      → text_of "source_duplicate_key" i ≡ some k
      → n.source_site_id ≡ s
      → keyed s k (apply_notice_fields python keys i n) ≡ true
  unfolding apply_notice_fields
  applied-keyed n k hk hs =
      set_published-keyed s k (as_datetime python (value_of "published_at" i))
        (apply_texts python keys i n)
      ∙ texts-keyed n k hk hs

  applied-id : (n : TenderNotice) → (apply_notice_fields python keys i n).id ≡ n.id
  unfolding apply_notice_fields
  applied-id n =
      set_published-id (as_datetime python (value_of "published_at" i))
        (apply_texts python keys i n)

  -- Why a second write adds nothing: the content is there, or the key, or the item has no title.
  abbrev pub is_known : Archive → Bool
  is_known a =
      exists_notice_version s (or_option (text_of "dedup_key" i) (text_of "source_duplicate_key" i))
        (text_of "source_duplicate_key" i) (text_of "content_hash" i) a

  pub data Settled (a : Archive) : Type 0 where
    suppressed : is_known a ≡ true → Settled a
    has_row :
        (k : String)
        → text_of "source_duplicate_key" i ≡ some k
        → 0 < count (keyed s k) a.notices
        → Settled a
    untitled : text_of "title" i ≡ none → Settled a

  -- What the first write leaves.
  abbrev pub Settles : Option Archive → Type 0
  Settles none = text_of "title" i ≡ none
  Settles (some a) = Settled a

  is_known-same : (a a' : Archive) → SameTables a a' → is_known a ≡ true → is_known a' ≡ true
  is_known-same a a' (ns, vs) h =
      exists-same s (or_option (text_of "dedup_key" i) (text_of "source_duplicate_key" i))
        (text_of "source_duplicate_key" i) (text_of "content_hash" i) a a' ns vs
      ∙ h

  save_notice-keyed :
      (n : TenderNotice) (k : String) (a : Archive)
      → keyed s k n ≡ true
      → 0 < count (has_id notice_id n.id) a.notices
      → Leaves (λ a'. 0 < count (keyed s k) a'.notices) (save_notice n a)
  unfolding save_notice
  save_notice-keyed n k a hk row =
      Leaves-if _ (has_clash n a) (raises notice_identity) (returns (changed_notice n a)) (λ _. tt)
        (λ _. keyed_saved s k n a.notices hk row)

  store_notice-Settles :
      (k : String)
      → text_of "source_duplicate_key" i ≡ some k
      → (o : Option (TenderNotice × Bool × Archive)) → IsRowOf i s o
      → Leaves Settles (store_notice python keys i o)
  store_notice-Settles k hk none h = h
  store_notice-Settles k hk (some (n, created, a)) (hs, row) =
      let n' = apply_notice_fields python keys i n in
      counted (λ a'. 0 < count (keyed s k) a'.notices) Settles (save_notice n' a)
        (int_of "crawl_job_id" i) (notice_deltas created)
        (save_notice-keyed n' k a (applied-keyed n k hk hs) (rw (applied-id n) row))
        (λ a' b there same. has_row k hk (rw same.0 there))

  pub write_notice_at-Settles :
      (k : String)
      → text_of "source_duplicate_key" i ≡ some k
      → (a : Archive) → Leaves Settles (write_notice_at python keys i s a)
  unfolding write_notice_at
  write_notice_at-Settles k hk a =
      Leaves-if Settles (is_known a) _ _
        (λ known.
          Leaves-bind (SameTables a) Settles (add_stats (int_of "crawl_job_id" i) _ a) _
            (add_stats-SameTables (int_of "crawl_job_id" i) _ a)
            (λ a' same. suppressed (is_known-same a a' same known)))
        (λ unknown.
          Leaves-bind (IsRowOf i s) Settles (resolve_notice python keys s i a) _
            (resolve_notice-IsRow a) (store_notice-Settles k hk))
