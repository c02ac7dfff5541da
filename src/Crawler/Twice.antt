-- ===== src/Crawler/Twice.antt =====
-- A notice that is written again makes no second row.
use tender_phase.Prelude.{
  ℕ, ◌<◌, Bool, true, false, String, Option, none, some, ◌≡◌, refl, sym, ap, ◌∙◌, count, length,
  eq_iff, or_option, or_else, is_some, ◌⊎◌, inl, inr,
}
use tender_phase.Prelude.Outcome.{returns, raises}
use mathlib.Core.Path.{subst}
use tender_phase.Crawler.Python.{Python}
use tender_phase.Crawler.Items.{Item, text_of, int_of, guess_base_url}
use tender_phase.Crawler.Rows.{
  TenderNotice, Archive, WriterContext, Written, notice_identity, notice_id,
}
use tender_phase.Table.{has_id}
use tender_phase.Crawler.Keys.{Keys, IsKeys}
use tender_phase.Crawler.Sources.{
  cached_source, after_cache, source_site_id, source_of_item, end_session, in_session, add_stats,
}
use tender_phase.Crawler.Notices.{
  has_clash, changed_notice, save_notice, found_or_created, resolve_notice, notice_deltas,
  store_notice, write_notice_at, write_notice,
}
use tender_phase.Crawler.NoticeFields.{
  external_id_of, dedup_hash_of, notice_by, apply_notice_fields, find_notice,
  find_notice_by_high_similarity,
}
use tender_phase.Crawler.Saves.{Leaves, Leaves-bind, Leaves-if}
use tender_phase.Crawler.Found.{Holds}
use tender_phase.Crawler.Settled.{
  counted, SameTables, add_stats-SameTables, keyed, keyed_found, length-saved, is_known, Settled,
  suppressed, has_row, untitled, Settles, write_notice_at-Settles,
}

is_some-or_left : (a b : Option TenderNotice) → is_some a ≡ true → is_some (or_option a b) ≡ true
is_some-or_left none b h = absurd (cc)
is_some-or_left (some n) b h = refl

is_some-or_right : (a b : Option TenderNotice) → is_some b ≡ true → is_some (or_option a b) ≡ true
is_some-or_right none b h = h
is_some-or_right (some n) b h = refl

-- As many notices as before.
abbrev SameLength : Archive → Archive → Type 0
SameLength a a' = length a'.notices ≡ length a.notices

abbrev Unmoved : Archive → Option (TenderNotice × Bool × Archive) → Type 0
Unmoved a none = Unit
Unmoved a (some (n, created, a')) = SameLength a a'

save_notice-SameLength : (a : Archive) (n : TenderNotice) → Leaves (SameLength a) (save_notice n a)
unfolding save_notice
save_notice-SameLength a n =
    Leaves-if _ (has_clash n a) (raises notice_identity) (returns (changed_notice n a)) (λ _. tt)
      (λ _. length-saved (has_id notice_id n.id) (λ _. n) a.notices)

module _ (python : Python) (keys : Keys) (s : ℕ) (i : Item) (a : Archive) where
  find_keyed :
      (k : String)
      → text_of "source_duplicate_key" i ≡ some k
      → 0 < count (keyed s k) a.notices
      → is_some (find_notice python keys s i a.notices) ≡ true
  unfolding find_notice notice_by
  find_keyed k hk h =
      let by : (TenderNotice → Option String) → Option String → Option TenderNotice =
        λ column t. notice_by column s t a.notices in
      let here : is_some (by (λ n. n.source_duplicate_key) (text_of "source_duplicate_key" i))
          ≡ true =
        rw hk (keyed_found s k a.notices h) in
      is_some-or_right (by (λ n. n.external_id) (external_id_of i))
        (or_option (by (λ n. n.source_duplicate_key) (text_of "source_duplicate_key" i)) (
          or_option (by (λ n. n.dedup_key) (text_of "dedup_key" i)) (
            or_option (by (λ n. n.dedup_hash) (dedup_hash_of i))
              (find_notice_by_high_similarity python keys s i a.notices))))
        (is_some-or_left (by (λ n. n.source_duplicate_key) (text_of "source_duplicate_key" i))
          (or_option (by (λ n. n.dedup_key) (text_of "dedup_key" i)) (
            or_option (by (λ n. n.dedup_hash) (dedup_hash_of i))
              (find_notice_by_high_similarity python keys s i a.notices)))
          here)

  found_or_created-Unmoved :
      (o : Option TenderNotice)
      → (is_some o ≡ true) ⊎ (text_of "title" i ≡ none)
      → Leaves (Unmoved a) (found_or_created python keys s i a o)
  found_or_created-Unmoved (some n) h = refl
  found_or_created-Unmoved none (inl h) = absurd (cc)
  found_or_created-Unmoved none (inr h) = rw h tt

  resolve_notice-Unmoved :
      is_known python keys s i a ≡ false
      → Settled python keys s i a
      → Leaves (Unmoved a) (resolve_notice python keys s i a)
  unfolding resolve_notice
  resolve_notice-Unmoved unknown (suppressed known) = absurd (cc)
  resolve_notice-Unmoved unknown (has_row k hk row) =
      found_or_created-Unmoved (find_notice python keys s i a.notices) (inl (find_keyed k hk row))
  resolve_notice-Unmoved unknown (untitled e) =
      found_or_created-Unmoved (find_notice python keys s i a.notices) (inr e)

  store_notice-SameLength :
      (o : Option (TenderNotice × Bool × Archive))
      → Unmoved a o
      → Leaves (Holds (SameLength a)) (store_notice python keys i o)
  store_notice-SameLength none h = tt
  store_notice-SameLength (some (n, created, a1)) h =
      counted (SameLength a1) (Holds (SameLength a))
        (save_notice (apply_notice_fields python keys i n) a1) (int_of "crawl_job_id" i)
        (notice_deltas created) (save_notice-SameLength a1 (apply_notice_fields python keys i n))
        (λ a' b kept same. ap length same.0 ∙ kept ∙ h)

  write_notice_at-SameLength :
      Settled python keys s i a → Leaves (Holds (SameLength a)) (write_notice_at python keys i s a)
  unfolding write_notice_at
  write_notice_at-SameLength settled =
      Leaves-if (Holds (SameLength a)) (is_known python keys s i a) _ _
        (λ known.
          Leaves-bind (SameTables a) (Holds (SameLength a))
            (add_stats (int_of "crawl_job_id" i) _ a) _
            (add_stats-SameTables (int_of "crawl_job_id" i) _ a) (λ a' same. ap length same.0))
        (λ unknown.
          Leaves-bind (Unmoved a) (Holds (SameLength a)) (resolve_notice python keys s i a) _
            (resolve_notice-Unmoved unknown settled) store_notice-SameLength)

-- The session that comes next finds the source in the cache.
cached_after :
    (code : String) (name url : Option String) (c : WriterContext) (o : Option ℕ)
    → cached_source code c.source_cache ≡ o
    → cached_source code (after_cache code name url c o).1.source_cache
      ≡ some (after_cache code name url c o).0
unfolding cached_source
cached_after code name url c (some id) e = e
cached_after code name url c none e = rw ((eq_iff code code).1 refl) refl

after_cache-again :
    (code : String) (name url : Option String) (c c' : WriterContext)
    → c'.source_cache
      ≡ (after_cache code name url c (cached_source code c.source_cache)).1.source_cache
    → after_cache code name url c' (cached_source code c'.source_cache)
      ≡ ((after_cache code name url c (cached_source code c.source_cache)).0, c')
after_cache-again code name url c c' same =
    let cached : cached_source code c'.source_cache
        ≡ some (after_cache code name url c (cached_source code c.source_cache)).0 =
      ap (cached_source code) same
      ∙ cached_after code name url c (cached_source code c.source_cache) refl in
    ap (after_cache code name url c') cached

source_again :
    (python : Python) (i : Item) (c c' : WriterContext)
    → c'.source_cache ≡ (source_of_item python i c).1.source_cache
    → source_of_item python i c' ≡ ((source_of_item python i c).0, c')
unfolding source_of_item source_site_id
source_again python i c c' same =
    after_cache-again (or_else (text_of "source_code" i) "unknown_source")
      (text_of "source_site_name" i)
      (some (or_else (text_of "source_site_url" i) (guess_base_url python i))) c c' same

module _ (python : Python) (keys : Keys) (i : Item) where
  end_session-cache :
      (before found : WriterContext) (r : Written (Option Archive))
      → (end_session python before found r).1.source_cache ≡ found.source_cache
  end_session-cache before found (returns (some a)) = refl
  end_session-cache before found (returns none) = refl
  end_session-cache before found (raises e) = refl

  end_session-Settled :
      (before found : WriterContext) (s : ℕ) (r : Written (Option Archive))
      → Leaves (Settles python keys s i) r
      → (end_session python before found r).0 ≡ returns tt
      → Settled python keys s i (end_session python before found r).1.archive
  end_session-Settled before found s (returns (some a)) h done = h
  end_session-Settled before found s (returns none) h done = untitled h
  end_session-Settled before found s (raises e) h done = absurd (cc)

  end_session-SameLength :
      (c : WriterContext) (r : Written (Option Archive))
      → Leaves (Holds (SameLength c.archive)) r
      → SameLength c.archive (end_session python c c r).1.archive
  end_session-SameLength c (returns (some a)) h = h
  end_session-SameLength c (returns none) h = refl
  end_session-SameLength c (raises e) h = refl

  in_session_twice :
      (k : String) (c : WriterContext)
      → text_of "source_duplicate_key" i ≡ some k
      → (in_session python i (write_notice_at python keys i) c).0 ≡ returns tt
      → SameLength
          (in_session python i (write_notice_at python keys i) c).1.archive
          (in_session python i
            (write_notice_at python keys i)
            (in_session python i (write_notice_at python keys i) c).1).1.archive
  unfolding in_session
  in_session_twice k c hk done =
      let (s, found) = source_of_item python i c in
      let r = write_notice_at python keys i s found.archive in
      let c' : WriterContext = (end_session python c found r).1 in
      let settled : Settled python keys s i c'.archive =
        end_session-Settled c found s r (write_notice_at-Settles python keys s i k hk found.archive)
          done in
      subst
        (λ q.
          SameLength c'.archive
            (end_session python c' q.1 (write_notice_at python keys i q.0 q.1.archive)).1.archive)
        (sym (source_again python i c c' (end_session-cache c found r)))
        (end_session-SameLength c' (write_notice_at python keys i s c'.archive)
          (write_notice_at-SameLength python keys s i c'.archive settled))

-- If `write_notice` has returned, the same call again adds no notice, whatever the item is and
-- whatever the database held.
pub write_notice_twice :
    (python : Python) (keys : Keys)
    → IsKeys keys
    → (raw : Item) (c : WriterContext) → (write_notice python keys raw c).0 ≡ returns tt
    → length (write_notice python keys raw (write_notice python keys raw c).1).1.archive.notices
      ≡ length (write_notice python keys raw c).1.archive.notices
unfolding write_notice
write_notice_twice python keys lawful raw c done =
    let (k, hk) = lawful.has_key raw in
    in_session_twice python keys (keys.normalize_notice_item raw) k c hk done
